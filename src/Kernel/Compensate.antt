-- ===== src/Kernel/Compensate.antt =====
-- The compensation of a committed reversible effect (`compensate_external_reversible`,
-- ugk/kernel.py).
use ugk.Base.{String, true, false, Option, none, some, not, if◌then◌else◌}
use ugk.Json.{Json, end, field, json_eq}
use ugk.Store.Receipt.{Receipt}
use ugk.Store.Attempt.{Attempt, raised, returned}
use ugk.Store.World.{World}
use ugk.Integrity.Reversible.{find_committed_forward}
use ugk.Kernel.Node.{
  Node, Effect, Ending, performed, not_performed, ambiguous, Outcome, gave, threw, store_error,
  compensation_refused, effect_failed, effect_not_performed, Act, emit, Trail, Refs, no_refs,
  reversible_call,
}
use ugk.Kernel.Irreversible.{act, conclude, emit_terminal, max_outcome_write_attempts}
use ugk.Kernel.Request.{Governance}
use ugk.Kernel.Graded.{Listing, filled, named, text_of}

pub record Compensation : Type 0 where
  pub prepare_ref : Json
  pub compensation_effect : Effect
  pub compensation_idempotency_key : Json
  pub authority : Json
  pub jurisdiction : String
  pub intent_ref : String
  pub warrant_id : String

unfoldable pub check_compensation : Listing → Compensation → Option String
check_compensation l q =
    if not (filled l q.authority)
    then some "authority-required"
    else if not (filled l q.compensation_idempotency_key)
    then some "compensation-key-required"
    else if not (named q.prepare_ref)
    then some "prepare_ref-required"
    else none

unfoldable pub compensation_trail : Governance → Compensation → String → Json → Trail
compensation_trail c q op key = record {
  op = op;
  authority = text_of q.authority;
  parameters = field "compensates_prepare_ref" q.prepare_ref end;
  idempotency_key = key;
  jurisdiction = q.jurisdiction;
  intent_ref = q.intent_ref;
  warrant_id = q.warrant_id;
  session_dkn = c.session_dkn;
  law_hash = c.law_hash;
  legend_hash = c.legend_hash;
  now = c.now;
}

abbrev pub compensation_refs : Compensation → Refs
compensation_refs q = record no_refs {
  compensate_ref = some (text_of q.prepare_ref);
  compensation_idempotency_key = q.compensation_idempotency_key;
}

-- An offset that raised is recorded, and what it raised goes on.
unfoldable pub failed_offset :
    World → Trail → Compensation → Outcome Unit → Node → Outcome Unit × Node
failed_offset w t q error node = conclude error (
    emit_terminal max_outcome_write_attempts w
      (reversible_call t "compensation_failed" true
        (record (compensation_refs q) { abort_reason = some "compensation_effect_failed" }))
      node)

unfoldable pub after_offset : World → Trail → Compensation → Ending × Node → Outcome Unit × Node
unfolding failed_offset
after_offset w t q (performed, node) = conclude (gave tt) (
    emit_terminal max_outcome_write_attempts w
      (reversible_call t "compensated" false (compensation_refs q)) node)
after_offset w t q (not_performed, node) = failed_offset w t q (threw effect_not_performed) node
after_offset w t q (ambiguous, node) = failed_offset w t q (threw effect_failed) node

unfoldable pub after_compensate :
    World → Trail → Compensation → Attempt Receipt × Node → Outcome Unit × Node
unfolding after_offset
after_compensate w t q (raised e, node) = (threw (store_error e), node)
after_compensate w t q (returned r, node) = after_offset w t q (act q.compensation_effect node)

-- With the operation and the key of the committed forward effect.
unfoldable pub compensate_forward :
    World → Governance → Compensation → Option (String × Json) → Act Unit
unfolding after_compensate compensation_trail
compensate_forward w c q none node =
    (threw (compensation_refused "not-a-compensable-committed-forward-effect"), node)
compensate_forward w c q (some (op, key)) node =
    let t = compensation_trail c q op key in
    if json_eq q.compensation_idempotency_key key
    then (threw (compensation_refused "ambiguous-compensation-key-reuses-forward-key"), node)
    else after_compensate w t q
        (emit w node (reversible_call t "compensate" false (compensation_refs q)))

unfoldable pub compensate_checked : World → Governance → Compensation → Option String → Act Unit
unfolding compensate_forward
compensate_checked w c q (some reason) node = (threw (compensation_refused reason), node)
compensate_checked w c q none node =
    compensate_forward w c q (find_committed_forward node.store.rows q.prepare_ref) node

unfoldable pub compensate_external_reversible :
    World → Governance → Listing → Compensation → Act Unit
unfolding compensate_checked
compensate_external_reversible w c l q node = compensate_checked w c q (check_compensation l q) node
