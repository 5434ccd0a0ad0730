-- ===== src/Integrity/Reversible.antt =====
-- The orphan detectors of reversible effects, and the guard of a compensation
-- (ugk/integrity/external_reversible.py).
use ugk.Base.{
  String, Bool, true, false, Option, none, some, List, [], ◌∷◌, not, ◌&&◌, ◌||◌, any, keep, map,
  if◌then◌else◌,
}
use ugk.Json.{Json, get, json_eq}
use ugk.Store.Receipt.{Receipt}
use ugk.Integrity.Trail.{view, is_phase, is_phase_in, clears, clears_compensate}

abbrev pub external_reversible : String
external_reversible = "external_reversible"

unfoldable pub is_forward_prepare : Receipt → Bool
unfolding is_phase
is_forward_prepare r = is_phase external_reversible "prepare" r

unfoldable pub is_forward_terminal : Receipt → Bool
unfolding is_forward_prepare is_phase_in
is_forward_terminal r =
    not (is_forward_prepare r) && is_phase_in external_reversible ("commit" ∷ "abort" ∷ []) r

unfoldable pub is_compensate : Receipt → Bool
unfolding is_phase
is_compensate r = is_phase external_reversible "compensate" r

unfoldable pub is_compensation_terminal : Receipt → Bool
unfolding is_compensate is_phase_in
is_compensation_terminal r =
    not (is_compensate r)
    && is_phase_in external_reversible ("compensated" ∷ "compensation_failed" ∷ []) r

unfoldable pub forward_in_doubt : List Receipt → List Receipt
unfolding is_forward_prepare is_forward_terminal clears
forward_in_doubt rs =
    keep (λ r. not (any (λ t. clears r t) (keep (λ t. is_forward_terminal t) rs)))
      (keep (λ r. is_forward_prepare r) rs)

unfoldable pub compensation_in_doubt : List Receipt → List Receipt
unfolding is_compensate is_compensation_terminal clears_compensate
compensation_in_doubt rs =
    keep (λ r. not (any (λ t. clears_compensate r t) (keep (λ t. is_compensation_terminal t) rs)))
      (keep (λ r. is_compensate r) rs)

pub record OrphanPrepare : Type 0 where
  pub op : String
  pub idempotency_key : Json
  pub prepare_ref : String
  pub prepare_h_r : String
  pub state : String
  pub arc : String
  pub gate_admit_ref : Json

pub record OrphanCompensate : Type 0 where
  pub op : String
  pub compensate_ref : Json
  pub compensation_idempotency_key : Json
  pub compensate_h_r : String
  pub state : String
  pub arc : String

unfoldable pub describe_prepare : Receipt → OrphanPrepare
unfolding view
describe_prepare r = record {
  op = r.op;
  idempotency_key = get "idempotency_key" (view r);
  prepare_ref = r.h_r;
  prepare_h_r = r.h_r;
  state = "in_doubt";
  arc = "forward";
  gate_admit_ref = get "gate_admit_ref" (view r);
}

unfoldable pub describe_compensate : Receipt → OrphanCompensate
unfolding view
describe_compensate r = record {
  op = r.op;
  compensate_ref = get "compensate_ref" (view r);
  compensation_idempotency_key = get "compensation_idempotency_key" (view r);
  compensate_h_r = r.h_r;
  state = "in_doubt";
  arc = "compensation";
}

-- `sort` and `sort'` are `list.sort` by the fields that name an orphan.
pub record Orphans : Type 0 where
  pub orphan_prepares : List OrphanPrepare
  pub orphan_compensates : List OrphanCompensate

unfoldable pub detect_orphans :
    (List OrphanPrepare → List OrphanPrepare)
    → (List OrphanCompensate → List OrphanCompensate)
    → List Receipt
    → Orphans
unfolding forward_in_doubt compensation_in_doubt describe_prepare describe_compensate
detect_orphans sort sort' rs = record {
  orphan_prepares = sort (map (λ r. describe_prepare r) (forward_in_doubt rs));
  orphan_compensates = sort' (map (λ r. describe_compensate r) (compensation_in_doubt rs));
}

-- The three variables of the loop of `find_committed_forward`.
pub record Arc : Type 0 where
  pub committed : Option (String × Json)
  pub aborted : Bool
  pub already_compensated : Bool

abbrev pub no_arc : Arc
no_arc = record { committed = none; aborted = false; already_compensated = false }

-- Is this the receipt of a phase that refers to the forward prepare by this field?
unfoldable pub refers : String → String → Json → Receipt → Bool
unfolding is_phase view
refers phase key ref r = is_phase external_reversible phase r && json_eq (get key (view r)) ref

unfoldable pub arc_step : Json → Arc → Receipt → Arc
unfolding refers view
arc_step ref arc r =
    if refers "commit" "prepare_ref" ref r
    then (record arc { committed = some (r.op, get "idempotency_key" (view r)) })
    else if refers "abort" "prepare_ref" ref r
    then (record arc { aborted = true })
    else if refers "compensate" "compensate_ref" ref r
    then (record arc { already_compensated = true })
    else arc

unfoldable pub arc_from : Json → Arc → List Receipt → Arc
unfolding arc_step
arc_from ref arc [] = arc
arc_from ref arc (r ∷ rs) = arc_from ref (arc_step ref arc r) rs

unfoldable pub compensable : Arc → Option (String × Json)
compensable arc = if arc.aborted || arc.already_compensated then none else arc.committed

unfoldable pub find_committed_forward : List Receipt → Json → Option (String × Json)
unfolding arc_from compensable
find_committed_forward rs prepare_ref = compensable (arc_from prepare_ref no_arc rs)
