-- ===== src/Fga/Outcomes.antt =====
-- When the classifier (`classify`, ugk/fga/terminal_outcome.py) gives which outcome, and what a
-- built trace vector (`build_trace_vector`, ugk/fga/trace_vector.py) says of the stored receipt.
use ugk.Base.{String, true, Option, none, some, ◌≡◌, ◌≢◌, ◌↔◌, arith}
use ugk.Base.Names.{elem}
use ugk.Crypto.{Hash}
use ugk.Fga.Trace.{TraceVector}
use ugk.Fga.Aggregate.{admit, aggregate, IsAdmissible, aggregate-IsAdmissible}
use ugk.Fga.Terminal.{
  PartialTrace, RootConflict, DeferPolicy, TraceArgument, no_trace, complete, PolicyArgument,
  policy, not_a_policy, Outcome, admitted, deferred, Classified, classified, classify,
  condition_reason,
}

abbrev pub outcome_of : Classified → Option Outcome
outcome_of (classified r) = some r.outcome
outcome_of _ = none

-- The signals under which a complete trace decides.
abbrev pub IsDecidedBy :
    Option RootConflict → TraceArgument → Option String → PolicyArgument → TraceVector → Type 0
IsDecidedBy root trace reason given tv =
    (root ≡ none) × (trace ≡ complete tv) × (reason ≡ none) × (given ≢ not_a_policy)

module _ (hash : Hash) (root : Option RootConflict) (partial : Option PartialTrace) where
  admitted-to :
      (trace : TraceArgument) (reason : Option String) (given : PolicyArgument)
      → outcome_of (classify hash root trace partial reason given) ≡ some admitted
      → (tv : TraceVector) × IsDecidedBy root trace reason given tv × (aggregate tv ≡ admit)
  unfolding classify
  admitted-to trace reason given h = ground arith

  -- The signals under which an explicit policy defers.
  deferred-to :
      (trace : TraceArgument) (reason : Option String) (given : PolicyArgument)
      → outcome_of (classify hash root trace partial reason given) ≡ some deferred
      → (root ≡ none)
        × (trace ≡ no_trace)
        × ((p : DeferPolicy) × (given ≡ policy p)
            × (elem (condition_reason partial reason) p.applies_to ≡ true))
  unfolding classify
  deferred-to trace reason given h = ground arith

admitted-from :
    (hash : Hash) (partial : Option PartialTrace) (given : PolicyArgument) (tv : TraceVector)
    → given ≢ not_a_policy
    → aggregate tv ≡ admit
    → outcome_of (classify hash none (complete tv) partial none given) ≡ some admitted
unfolding classify
admitted-from hash partial given tv n h = ground arith

deferred-from :
    (hash : Hash) (partial : Option PartialTrace) (reason : Option String) (p : DeferPolicy)
    → elem (condition_reason partial reason) p.applies_to ≡ true
    → outcome_of (classify hash none no_trace partial reason (policy p)) ≡ some deferred
unfolding classify condition_reason
deferred-from hash partial reason p h = ground arith

-- The outcome is ADMIT exactly when there is no root conflict, no structural reason and no object
-- that is not a policy in a policy's place, and the trace is a complete vector that is admissible.
pub classify-admitted :
    (hash : Hash) (root : Option RootConflict) (trace : TraceArgument)
    (partial : Option PartialTrace) (reason : Option String) (given : PolicyArgument)
    → outcome_of (classify hash root trace partial reason given) ≡ some admitted
      ↔ ((tv : TraceVector) × IsDecidedBy root trace reason given tv × IsAdmissible tv)
classify-admitted hash root trace partial reason given = (
  λ h.
      let (tv, d, a) = admitted-to hash root partial trace reason given h in
      (tv, d, (aggregate-IsAdmissible tv).0 a),
  λ (tv, (er, et, ee, n), a).
      rw (er, et, ee) (admitted-from hash partial given tv n ((aggregate-IsAdmissible tv).1 a)),
)

-- The outcome is DEFER exactly when there is no root conflict and no trace, and an explicit policy
-- lists the reason for which the evaluation could not be made; no partial result alone defers.
pub classify-deferred :
    (hash : Hash) (root : Option RootConflict) (trace : TraceArgument)
    (partial : Option PartialTrace) (reason : Option String) (given : PolicyArgument)
    → outcome_of (classify hash root trace partial reason given) ≡ some deferred ↔ (
        (root ≡ none)
        × (trace ≡ no_trace)
        × ((p : DeferPolicy) × (given ≡ policy p)
            × (elem (condition_reason partial reason) p.applies_to ≡ true)))
classify-deferred hash root trace partial reason given = (
  λ h. deferred-to hash root partial trace reason given h,
  λ (er, et, (p, eg, h)). rw (er, et, eg) (deferred-from hash partial reason p h),
)
