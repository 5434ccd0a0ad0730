-- ===== src/Store/Receipt.antt =====
-- The receipt (`Receipt`, ugk/storage/store.py), its optional columns in groups. A column that
-- holds `None` holds `null`.
use ugk.Base.{ℕ, String, Bool}
use ugk.Json.{Json, null, Fields}

-- The committed terminal outcome.
pub record TerminalColumns : Type 0 where
  pub terminal_outcome : Json
  pub terminal_outcome_model_id : Json
  pub terminal_outcome_reason : Json

-- The committed capability evidence.
pub record CapabilityColumns : Type 0 where
  pub h_cap : Json
  pub capability_evidence_model_id : Json
  pub capability_ledger_hash : Json
  pub capability_registry_version : Json
  pub capability_scope_id : Json

-- The typed effect surface.
pub record EffectColumns : Type 0 where
  pub effect_atomicity : Json
  pub effect_atomicity_model_id : Json
  pub effect_phase : Json
  pub effect_prepare_ref : Json
  pub effect_compensate_ref : Json
  pub effect_idempotency_key : Json
  pub effect_compensation_idempotency_key : Json
  pub effect_abort_reason : Json
  pub effect_gate_admit_ref : Json

-- The verified-grade reconciliation surface.
pub record ReconciliationColumns : Type 0 where
  pub reconciliation_grade : Json
  pub reconciliation_warrant_snapshot : Json

-- The continuation record.
pub record ContinuationColumns : Type 0 where
  pub continuation_id : Json
  pub continuation_op : Json
  pub continuation_authority : Json
  pub continuation_parameters : Json
  pub continuation_jurisdiction : Json
  pub continuation_expiry_basis : Json
  pub continuation_state : Json
  pub continuation_model_id : Json

-- The bridge surface.
pub record BridgeColumns : Type 0 where
  pub bridge_record_id : Json
  pub bridge_source_regime_ref : Json
  pub bridge_target_regime_ref : Json
  pub bridge_transformation_ref : Json
  pub bridge_downgrade_reason : Json
  pub bridge_preserved_evidence_ref : Json

abbrev pub no_terminal : TerminalColumns
no_terminal = record {
  terminal_outcome = null;
  terminal_outcome_model_id = null;
  terminal_outcome_reason = null;
}

abbrev pub no_capability : CapabilityColumns
no_capability = record {
  h_cap = null;
  capability_evidence_model_id = null;
  capability_ledger_hash = null;
  capability_registry_version = null;
  capability_scope_id = null;
}

abbrev pub no_effect : EffectColumns
no_effect = record {
  effect_atomicity = null;
  effect_atomicity_model_id = null;
  effect_phase = null;
  effect_prepare_ref = null;
  effect_compensate_ref = null;
  effect_idempotency_key = null;
  effect_compensation_idempotency_key = null;
  effect_abort_reason = null;
  effect_gate_admit_ref = null;
}

abbrev pub no_reconciliation : ReconciliationColumns
no_reconciliation = record { reconciliation_grade = null; reconciliation_warrant_snapshot = null }

abbrev pub no_continuation : ContinuationColumns
no_continuation = record {
  continuation_id = null;
  continuation_op = null;
  continuation_authority = null;
  continuation_parameters = null;
  continuation_jurisdiction = null;
  continuation_expiry_basis = null;
  continuation_state = null;
  continuation_model_id = null;
}

abbrev pub no_bridge : BridgeColumns
no_bridge = record {
  bridge_record_id = null;
  bridge_source_regime_ref = null;
  bridge_target_regime_ref = null;
  bridge_transformation_ref = null;
  bridge_downgrade_reason = null;
  bridge_preserved_evidence_ref = null;
}

-- Every field that the body commitment covers. A `h_j` of `None` is the empty text.
pub record Body : Type 0 where
  pub op : String
  pub authority : String
  pub parameters : Fields
  pub intent : String
  pub jurisdiction : String
  pub confidence : String
  pub timestamp : Json
  pub failed : Bool
  pub session_dkn : String
  pub law_hash : String
  pub legend_hash : String
  pub warrant_id : String
  pub intent_ref : String
  pub h_s : String
  pub h_c : String
  pub h_m : String
  pub h_j : String
  pub h_r : String
  pub parent_h_r : String
  pub mode : String
  pub version : ℕ
  pub id_c_s : String
  pub id_c_c : String
  pub id_c_m : String
  pub id_c_j : String
  pub terminal : TerminalColumns
  pub capability : CapabilityColumns
  pub effect : EffectColumns
  pub reconciliation : ReconciliationColumns
  pub continuation : ContinuationColumns
  pub bridge : BridgeColumns

pub record Receipt : Type 0 where
  pub body : Body
  pub open body use *
  pub receipt_id : ℕ
  pub h_body : String
  pub trace_vector_hash : Json
