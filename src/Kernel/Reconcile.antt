-- ===== src/Kernel/Reconcile.antt =====
-- The governed reconciliation of an attempt in doubt (`_verify_reconciliation_warrant`,
-- `reconcile_external_irreversible`, `reconcile_external_reversible_forward`,
-- `reconcile_external_reversible_compensation`, ugk/kernel.py).
use ugk.Base.{String, Bool, true, false, Option, none, some, List, ◌==◌, ◌&&◌, find, if◌then◌else◌}
use ugk.Json.{Json, text, get, is_null, json_eq}
use ugk.Store.Receipt.{Receipt}
use ugk.Store.World.{World}
use ugk.Store.Write.{WriteCall}
use ugk.Integrity.Irreversible.{Orphan, detect_orphan_prepares}
use ugk.Integrity.Reversible
use ugk.Integrity.Reversible.{OrphanPrepare, OrphanCompensate, detect_orphans}
use ugk.Kernel.Node.{
  threw, reconciliation_refused, Act, throw, Trail, Refs, no_refs, irreversible_call,
  reversible_call,
}
use ugk.Kernel.Irreversible.{Phases, emit_terminal, max_outcome_write_attempts}
use ugk.Kernel.Request.{Governance}
use ugk.Kernel.Graded.{
  Listing, Finding, text_of, check_finding, Grade, refused, grade_of, markers_of,
}

-- The attempt in doubt, and what its terminals are.
pub record Target : Type 0 where
  pub op : String
  pub idempotency_key : Json
  pub arc : Option String
  pub phases : Trail → Phases
  pub performed : String
  pub not_performed : String
  pub refs : Refs
  pub reason : String

unfoldable pub target_trail : World → Governance → Finding → Target → Grade → Trail
target_trail w c f t grade = record {
  op = t.op;
  authority = text_of f.authority;
  parameters = markers_of w f t.arc grade;
  idempotency_key = t.idempotency_key;
  jurisdiction = f.jurisdiction;
  intent_ref = f.intent_ref;
  warrant_id = f.warrant_id;
  session_dkn = c.session_dkn;
  law_hash = c.law_hash;
  legend_hash = c.legend_hash;
  now = c.now;
}

-- The one terminal that closes the attempt.
unfoldable pub terminal_call : World → Governance → Finding → Target → Grade → WriteCall
unfolding target_trail
terminal_call w c f t grade =
    let phases = t.phases (target_trail w c f t grade) in
    if json_eq f.determination (text "performed")
    then phases t.performed false t.refs
    else phases t.not_performed true (record t.refs { abort_reason = some t.reason })

unfoldable pub close_target : World → Governance → Finding → Target → Grade → Act Receipt
unfolding terminal_call
close_target w c f t (refused reason) = throw (reconciliation_refused reason)
close_target w c f t grade =
    emit_terminal max_outcome_write_attempts w (terminal_call w c f t grade)

unfoldable pub reconcile_target :
    World → Governance → Listing → Finding → Option Target → Act Receipt
unfolding close_target
reconcile_target w c l f none node =
    (threw (reconciliation_refused "not-an-outstanding-orphan"), node)
reconcile_target w c l f (some t) node = close_target w c f t (grade_of w c l f node.warrants) node

unfoldable pub reconcile_checked :
    World → Governance → Listing → Finding → Option String → Option Target → Act Receipt
unfolding reconcile_target
reconcile_checked w c l f (some reason) target node = (threw (reconciliation_refused reason), node)
reconcile_checked w c l f none target node = reconcile_target w c l f target node

unfoldable pub irreversible_target : Option Orphan → Option Target
irreversible_target none = none
irreversible_target (some o) = some (record {
  op = o.op;
  idempotency_key = o.idempotency_key;
  arc = none;
  phases = irreversible_call;
  performed = "commit";
  not_performed = "abort";
  refs = record no_refs { prepare_ref = some o.prepare_ref };
  reason = "reconciled_not_performed";
})

unfoldable pub reconcile_external_irreversible :
    World → Governance → Listing → Finding → Act Receipt
unfolding reconcile_checked irreversible_target
reconcile_external_irreversible w c l f node =
    reconcile_checked w c l f (check_finding l f "prepare_ref-required")
      (irreversible_target (
        find (λ o. o.prepare_ref == text_of f.reference)
          (detect_orphan_prepares l.prepares node.store.rows)))
      node

unfoldable pub forward_target : Option OrphanPrepare → Option Target
forward_target none = none
forward_target (some o) = some (record {
  op = o.op;
  idempotency_key = o.idempotency_key;
  arc = some "forward";
  phases = reversible_call;
  performed = "commit";
  not_performed = "abort";
  refs = record no_refs { prepare_ref = some o.prepare_ref };
  reason = "reconciled_not_performed";
})

unfoldable pub reconcile_external_reversible_forward :
    World → Governance → Listing → Finding → Act Receipt
unfolding reconcile_checked forward_target
reconcile_external_reversible_forward w c l f node =
    reconcile_checked w c l f (check_finding l f "prepare_ref-required")
      (forward_target (
        find (λ o. o.prepare_ref == text_of f.reference)
          (Reversible.detect_orphans l.forward l.compensates node.store.rows).orphan_prepares))
      node

-- A column that is there, or the parameter marker.
column_or_marker : Json → String → Receipt → Json
column_or_marker v marker r = if is_null v then get marker r.parameters else v

-- The intent receipt of the compensation.
is_intent : String → Json → Receipt → Bool
unfolding column_or_marker
is_intent ref key r =
    json_eq (column_or_marker r.effect.effect_phase "phase" r) (text "compensate")
    && json_eq (column_or_marker r.effect.effect_compensate_ref "compensate_ref" r) (text ref)
    && json_eq
        (column_or_marker r.effect.effect_compensation_idempotency_key
          "compensation_idempotency_key" r)
        key

forward_key : Json → Option Receipt → Json
unfolding column_or_marker
forward_key key none = key
forward_key key (some r) = column_or_marker r.effect.effect_idempotency_key "idempotency_key" r

unfoldable pub compensation_target : List Receipt → String → Option OrphanCompensate → Option Target
unfolding is_intent forward_key
compensation_target rows ref none = none
compensation_target rows ref (some o) = some (record {
  op = o.op;
  idempotency_key =
      forward_key o.compensation_idempotency_key
        (find (λ r. is_intent ref o.compensation_idempotency_key r) rows);
  arc = some "compensation";
  phases = reversible_call;
  performed = "compensated";
  not_performed = "compensation_failed";
  refs = record no_refs {
    compensate_ref = some ref;
    compensation_idempotency_key = o.compensation_idempotency_key;
  };
  reason = "reconciled_compensation_not_performed";
})

unfoldable pub reconcile_external_reversible_compensation :
    World → Governance → Listing → Finding → Act Receipt
unfolding reconcile_checked compensation_target
reconcile_external_reversible_compensation w c l f node =
    reconcile_checked w c l f (check_finding l f "compensate_ref-required")
      (compensation_target node.store.rows (text_of f.reference) (
        find (λ o. json_eq o.compensate_ref (text (text_of f.reference)))
          (Reversible.detect_orphans l.forward l.compensates node.store.rows).orphan_compensates))
      node
