-- ===== src/Store/Write.antt =====
-- The append of one receipt (`UGKReceiptStore.write`, ugk/storage/store.py).
use ugk.Base.{
  ℕ, String, Bool, false, Option, none, some, List, [], ◌∷◌, ◌==◌, not, ◌||◌, if◌then◌else◌,
}
use ugk.Json.{
  Json, null, text, arr, nil, cons, Fields, get, is_null, keep_fields, serializable_fields,
}
use ugk.Binding.Canon.{
  commit_s, commit_c, commit_m, commit_j, commit_id_p, commit_id_sigma, commit_id_phi,
}
use ugk.Binding.Merkle.{Leaf, compute_h_r}
use ugk.Store.Receipt.{
  Receipt, TerminalColumns, CapabilityColumns, EffectColumns, ReconciliationColumns,
  ContinuationColumns, BridgeColumns, no_terminal, no_capability, no_effect, no_continuation,
  no_bridge,
}
use ugk.Store.Attempt.{Attempt, raised, returned, value_error, type_error, ◌>>=◌, ◌>>◌}
use ugk.Store.Effect.{resolve_effect_surface}
use ugk.Store.Emit.{
  BridgeVerifier, validate_continuation, validate_bridge_record, derive_committed_outcome,
  assert_emittable,
}
use ugk.Store.World.{World, canonical_path_for, edge_dicts, effective_capabilities, lineage}

-- The arguments of `write`; `capability_evidence` is what `capability_evidence_commitment` makes of
-- the ledger, `now` the clock's reading.
pub record WriteCall : Type 0 where
  pub op : String
  pub authority : String
  pub parameters : Fields
  pub failed : Bool
  pub intent : Option String
  pub jurisdiction : String
  pub confidence : String
  pub session_dkn : String
  pub law_hash : String
  pub legend_hash : String
  pub warrant_id : String
  pub intent_ref : String
  pub commit_terminal_outcome : Bool
  pub terminal_outcome_override : Option String
  pub commit_capability_evidence : Bool
  pub capability_evidence : Option (Attempt CapabilityColumns)
  pub effect_columns : Option Fields
  pub reconciliation_grade : Json
  pub reconciliation_warrant_snapshot : Json
  pub continuation : Json
  pub bridge : Json
  pub bridge_verifier : BridgeVerifier
  pub now : Json

-- The connection's rows in order, and the tip that the store keeps in memory.
pub record Store : Type 0 where
  pub rows : List Receipt
  pub prior_h_r : String
  pub prior_h_m : Option String
  pub prior_intent_ref : Option String
  pub next_id : ℕ
  pub read_only : Bool
  pub txn_depth : ℕ

-- Where SQLite fails during the call, if it does.
pub data Fault : Type 0 where
  no_fault at_insert at_commit : Fault

-- What the body needs after the effect surface and the reconciliation keys are resolved.
pub record Resolved : Type 0 where
  pub parameters : Fields
  pub effect : EffectColumns
  pub reconciliation : ReconciliationColumns

abbrev or_else : Json → Json → Json
or_else null v = v
or_else u v = u

abbrev is_promoted : String → Bool
is_promoted k = k == "reconciliation_grade" || k == "reconciliation_warrant_snapshot"

effect_of : Option EffectColumns → EffectColumns
effect_of none = no_effect
effect_of (some c) = c

resolved_of : WriteCall → Option EffectColumns × Fields → Resolved
unfolding effect_of
resolved_of call (columns, p) = record {
  parameters = keep_fields (λ k. not (is_promoted k)) p;
  effect = effect_of columns;
  reconciliation = record {
    reconciliation_grade = or_else call.reconciliation_grade (get "reconciliation_grade" p);
    reconciliation_warrant_snapshot =
        or_else call.reconciliation_warrant_snapshot (get "reconciliation_warrant_snapshot" p);
  };
}

-- `_params_json` refuses what `json.dumps` cannot write.
dumped : Resolved → Attempt Resolved
dumped r = if serializable_fields r.parameters then returned r else raised type_error

unfoldable pub resolve : WriteCall → Attempt Resolved
unfolding resolved_of dumped
resolve call = resolve_effect_surface call.parameters call.effect_columns false >>= λ pair.
    dumped (resolved_of call pair)

abbrev pub intent_of : WriteCall → String
intent_of call = elim call.intent [ none ↦ call.op | some i ↦ i ]

pub record Commitments : Type 0 where
  pub h_s : String
  pub h_c : String
  pub h_m : String
  pub h_j : String
  pub h_r : String

ledger_evidence : Option (Attempt CapabilityColumns) → Attempt CapabilityColumns
ledger_evidence none =
    raised (value_error "commit_capability_evidence requires a capability_ledger")
ledger_evidence (some c) = c

unfoldable pub capability_of : WriteCall → Attempt CapabilityColumns
unfolding ledger_evidence
capability_of call =
    if call.commit_capability_evidence
    then ledger_evidence call.capability_evidence
    else returned no_capability

unfoldable pub terminal_of : World → WriteCall → Attempt TerminalColumns
terminal_of w call =
    let derived =
      derive_committed_outcome call.op call.failed call.terminal_outcome_override
        (intent_of call) in
    let outcome = derived.0 in
    let reason = derived.1 in
    if call.commit_terminal_outcome || call.commit_capability_evidence
    then (assert_emittable w.hash w.dumps outcome call.continuation call.bridge call.bridge_verifier
        >> returned (record {
          terminal_outcome = text outcome;
          terminal_outcome_model_id = text "terminal_outcome_model_v1";
          terminal_outcome_reason = text reason;
        }))
    else returned no_terminal

unfoldable pub continuation_of : World → WriteCall → Attempt ContinuationColumns
continuation_of w call =
    if is_null call.continuation
    then returned no_continuation
    else validate_continuation w.hash w.dumps call.continuation

unfoldable pub bridge_of : WriteCall → Attempt BridgeColumns
bridge_of call =
    if is_null call.bridge then returned no_bridge else validate_bridge_record call.bridge

-- The leaf tags of ugk/storage/binding_m2.py, in the order of the code.
leaves : World → WriteCall → String → String → String → String → List Leaf
leaves w call h_s h_c h_m h_j =
    (1, h_s)
    ∷ (2, h_c)
    ∷ (3, h_m)
    ∷ (4, h_j)
    ∷ (5, commit_id_p w.hash (w.policy_id call.jurisdiction))
    ∷ (6, commit_id_sigma w.hash w.sigma)
    ∷ (7, commit_id_phi w.hash w.phi)
    ∷ []

unfoldable pub h_r_of : Option String → Attempt String
h_r_of none = raised (value_error "compute_H_r")
h_r_of (some h_r) = returned h_r

-- The seven commitments over the caller's fields and the store's tip, and their root.
unfoldable pub commit : World → Store → WriteCall → Fields → Attempt Commitments
unfolding leaves h_r_of
commit w store call p = canonical_path_for w call.authority >>= λ path.
    effective_capabilities w path >>= λ caps.
    let h_s = commit_s w.hash call.op p in
    let h_c = commit_c w.hash (record {
      authority_chain = arr (edge_dicts path);
      policy_id = w.policy_id call.jurisdiction;
      capabilities = caps;
      warrant_basis = arr (if call.warrant_id == "" then nil else cons (text call.warrant_id) nil);
      parent_h_r = store.prior_h_r;
      freshness = w.freshness;
    }) in
    let h_m =
      commit_m w.hash (intent_of call) call.intent_ref call.legend_hash
        (lineage store.prior_h_m store.prior_intent_ref) w.sigma in
    let h_j =
      commit_j w.hash w.phase_code w.mosaic_root call.session_dkn
        (w.authority_key call.authority) in
    h_r_of (compute_h_r w.hash w.tag_byte w.length_prefix (leaves w call h_s h_c h_m h_j))
    >>= λ h_r. returned (record { h_s = h_s; h_c = h_c; h_m = h_m; h_j = h_j; h_r = h_r })
