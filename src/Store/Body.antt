-- ===== src/Store/Body.antt =====
-- The whole-body commitment (`compute_h_body`, ugk/storage/store.py).
use ugk.Base.{ℕ, String, [], ◌∷◌, leb, if◌then◌else◌}
use ugk.Json.{bool, int, text, obj, Fields, end, field}
use ugk.Crypto.{Hash}
use ugk.Store.Receipt.{
  TerminalColumns, CapabilityColumns, EffectColumns, ReconciliationColumns, ContinuationColumns,
  BridgeColumns, Body,
}

unfoldable pub terminal_fields : TerminalColumns → Fields → Fields
terminal_fields c rest = field "terminal_outcome" c.terminal_outcome (
    field "terminal_outcome_model_id" c.terminal_outcome_model_id
      (field "terminal_outcome_reason" c.terminal_outcome_reason rest))

unfoldable pub capability_fields : CapabilityColumns → Fields → Fields
capability_fields c rest = field "h_cap" c.h_cap (
    field "capability_evidence_model_id" c.capability_evidence_model_id (
      field "capability_ledger_hash" c.capability_ledger_hash (
        field "capability_registry_version" c.capability_registry_version
          (field "capability_scope_id" c.capability_scope_id rest))))

unfoldable pub effect_fields : EffectColumns → Fields → Fields
effect_fields c rest = field "effect_atomicity" c.effect_atomicity (
    field "effect_atomicity_model_id" c.effect_atomicity_model_id (
      field "effect_phase" c.effect_phase (
        field "effect_prepare_ref" c.effect_prepare_ref (
          field "effect_compensate_ref" c.effect_compensate_ref (
            field "effect_idempotency_key" c.effect_idempotency_key (
              field "effect_compensation_idempotency_key" c.effect_compensation_idempotency_key (
                field "effect_abort_reason" c.effect_abort_reason
                  (field "effect_gate_admit_ref" c.effect_gate_admit_ref rest))))))))

unfoldable pub reconciliation_fields : ReconciliationColumns → Fields → Fields
reconciliation_fields c rest =
    field "reconciliation_grade" c.reconciliation_grade
      (field "reconciliation_warrant_snapshot" c.reconciliation_warrant_snapshot rest)

unfoldable pub continuation_fields : ContinuationColumns → Fields → Fields
continuation_fields c rest = field "continuation_id" c.continuation_id (
    field "continuation_op" c.continuation_op (
      field "continuation_authority" c.continuation_authority (
        field "continuation_parameters" c.continuation_parameters (
          field "continuation_jurisdiction" c.continuation_jurisdiction (
            field "continuation_expiry_basis" c.continuation_expiry_basis (
              field "continuation_state" c.continuation_state
                (field "continuation_model_id" c.continuation_model_id rest)))))))

unfoldable pub bridge_fields : BridgeColumns → Fields → Fields
bridge_fields c rest = field "bridge_record_id" c.bridge_record_id (
    field "bridge_source_regime_ref" c.bridge_source_regime_ref (
      field "bridge_target_regime_ref" c.bridge_target_regime_ref (
        field "bridge_transformation_ref" c.bridge_transformation_ref (
          field "bridge_downgrade_reason" c.bridge_downgrade_reason
            (field "bridge_preserved_evidence_ref" c.bridge_preserved_evidence_ref rest)))))

-- The blocks that each version adds, in the order of the code.
unfoldable pub versioned_fields : Body → Fields
versioned_fields b =
    let f8 = if leb 8 b.version then bridge_fields b.bridge end else end in
    let f7 = if leb 7 b.version then continuation_fields b.continuation f8 else f8 in
    let f6 = if leb 6 b.version then reconciliation_fields b.reconciliation f7 else f7 in
    let f4 = if leb 4 b.version then effect_fields b.effect f6 else f6 in
    let f3 = if leb 3 b.version then capability_fields b.capability f4 else f4 in
    if leb 2 b.version then terminal_fields b.terminal f3 else f3

unfoldable pub body_fields : Body → Fields
body_fields b = field "op" (text b.op) (
    field "authority" (text b.authority) (
      field "parameters" (obj b.parameters) (
        field "intent" (text b.intent) (
          field "jurisdiction" (text b.jurisdiction) (
            field "confidence" (text b.confidence) (
              field "timestamp" b.timestamp (
                field "failed" (bool b.failed) (
                  field "session_dkn" (text b.session_dkn) (
                    field "law_hash" (text b.law_hash) (
                      field "legend_hash" (text b.legend_hash) (
                        field "warrant_id" (text b.warrant_id) (
                          field "intent_ref" (text b.intent_ref) (
                            field "h_s" (text b.h_s) (
                              field "h_c" (text b.h_c) (
                                field "h_m" (text b.h_m) (
                                  field "h_j" (text b.h_j) (
                                    field "h_r" (text b.h_r) (
                                      field "parent_h_r" (text b.parent_h_r) (
                                        field "mode" (text b.mode) (
                                          field "version" (int b.version) (
                                            field "id_c_s" (text b.id_c_s) (
                                              field "id_c_c" (text b.id_c_c) (
                                                field "id_c_m" (text b.id_c_m) (
                                                  field "id_c_j" (text b.id_c_j)
                                                    (versioned_fields b)))))))))))))))))))))))))

unfoldable pub body_tag : ℕ → String
body_tag version =
    if leb 8 version
    then "UGK-BODY-v8"
    else if leb 7 version
    then "UGK-BODY-v7"
    else if leb 6 version
    then "UGK-BODY-v6"
    else if leb 5 version
    then "UGK-BODY-v5"
    else if leb 4 version
    then "UGK-BODY-v4"
    else if leb 3 version
    then "UGK-BODY-v3"
    else if leb 2 version
    then "UGK-BODY-v2"
    else "UGK-BODY-v1"

unfoldable pub compute_h_body : Hash → Body → String
compute_h_body hash b =
    hash.sha256 (body_tag b.version ∷ hash.canonical_json (obj (body_fields b)) ∷ [])
