-- ===== src/Fga/Terminal.antt =====
-- The terminal-outcome classifier (`classify`, ugk/fga/terminal_outcome.py).
use ugk.Base.{String, Bool, true, false, List, [], ◌∷◌, if◌then◌else◌, Option, none, some}
use ugk.Base.Names.{elem}
use ugk.Json.{text, bool, arr, obj, Items, nil, cons, Fields, end, field}
use ugk.Crypto.{Hash}
use ugk.Fga.Trace.{SurfaceResult, TraceVector, result_items, reason_text}
use ugk.Fga.Aggregate.{Verdict, admit, refusal, aggregate}

pub record PartialTrace : Type 0 where
  pub resolved : List SurfaceResult
  pub pending : List String
  pub reason : String

pub record RootConflict : Type 0 where
  pub roots : List String
  pub detail : String

pub record DeferPolicy : Type 0 where
  pub reason : String
  pub authority_boundary : String
  pub continuation_condition : String
  pub applies_to : List String

abbrev pub authorizes : DeferPolicy → String → Bool
authorizes p reason = elem reason p.applies_to

-- What a caller passes as `trace`; `not_a_trace` is any other object.
pub data TraceArgument : Type 0 where
  no_trace : TraceArgument
  complete : TraceVector → TraceArgument
  partial_as_trace : PartialTrace → TraceArgument
  not_a_trace : TraceArgument

-- What a caller passes as `defer_policy`; `not_a_policy` is any other object.
pub data PolicyArgument : Type 0 where
  no_policy : PolicyArgument
  policy : DeferPolicy → PolicyArgument
  not_a_policy : PolicyArgument

pub data Outcome : Type 0 where
  admitted refused_outcome deferred structural_error crisis : Outcome

pub data Carried : Type 0 where
  of_trace : TraceVector → Carried
  of_partial : PartialTrace → Carried
  of_conflict : RootConflict → Carried
  nothing : Carried

pub record OutcomeResult : Type 0 where
  pub outcome : Outcome
  pub reason : String
  pub carried_kind : String
  pub carried_identity : String
  pub basis : Fields
  pub identity : String

-- The exceptions of `classify`.
pub data Classified : Type 0 where
  classified : OutcomeResult → Classified
  ambient_policy : Classified
  partial_is_not_complete : Classified
  contradictory_inputs : Classified
  not_a_trace_vector : Classified

abbrev pub outcome_text : Outcome → String
outcome_text admitted = "ADMIT"
outcome_text refused_outcome = "REFUSE"
outcome_text deferred = "DEFER"
outcome_text structural_error = "STRUCTURAL_ERROR"
outcome_text crisis = "CRISIS"

unfoldable pub texts : List String → Items
texts [] = nil
texts (x ∷ xs) = cons (text x) (texts xs)

unfoldable pub condition_reason : Option PartialTrace → Option String → String
condition_reason partial (some r) = r
condition_reason (some p) none = p.reason
condition_reason none none = "non-evaluable"

module _ (hash : Hash) where
  -- `_carried_identity`
  unfoldable pub carried_identity_of : Carried → String
  unfolding texts
  carried_identity_of (of_trace tv) = tv.trace_vector_hash
  carried_identity_of (of_partial p) = hash.sha256 (
      "LM2-PARTIAL-v1"
      ∷ hash.storage_json (
          obj (
            field "resolved" (arr (result_items p.resolved))
              (field "pending" (arr (texts p.pending)) (field "reason" (text p.reason) end))))
      ∷ [])
  carried_identity_of (of_conflict c) = hash.sha256 (
      "LM2-ROOT-v1"
      ∷ hash.storage_json
          (obj (field "roots" (arr (texts c.roots)) (field "detail" (text c.detail) end)))
      ∷ [])
  carried_identity_of nothing = ""

  -- `_mk`
  unfoldable pub make_result : Outcome → String → String → Carried → Fields → OutcomeResult
  unfolding carried_identity_of
  make_result outcome reason kind carried basis =
      let cid = carried_identity_of carried in
      record {
        outcome = outcome;
        reason = reason;
        carried_kind = kind;
        carried_identity = cid;
        basis = basis;
        identity = hash.sha256 (
            "LM2-OUTCOME-v1"
            ∷ hash.storage_json (
                obj (
                  field "model_id" (text "terminal_outcome_model_v1") (
                    field "outcome" (text (outcome_text outcome)) (
                      field "reason" (text reason) (
                        field "carried_kind" (text kind)
                          (field "carried_identity" (text cid) (field "basis" (obj basis) end)))))))
            ∷ []);
      }

  structural : Option PartialTrace → String → OutcomeResult
  unfolding make_result
  structural partial reason =
      make_result structural_error reason (elim partial [ none ↦ "none" | some p ↦ "partial" ])
        (elim partial [ none ↦ nothing | some p ↦ of_partial p ])
        (field "root_conflict" (bool false)
          (field "complete_trace" (bool false) (field "defer_policy" (bool false) end)))

  defer_result : Option PartialTrace → String → DeferPolicy → OutcomeResult
  unfolding make_result
  defer_result partial reason p =
      make_result deferred reason "partial"
        (elim partial [ none ↦ nothing | some q ↦ of_partial q ])
        (field "root_conflict" (bool false) (
          field "complete_trace" (bool false) (
            field "defer_policy" (bool true) (
              field "authorizes" (text reason) (
                field "authority_boundary" (text p.authority_boundary)
                  (field "continuation_condition" (text p.continuation_condition) end))))))

  -- The branch with no complete trace vector.
  incomplete : Option PartialTrace → Option String → PolicyArgument → OutcomeResult
  unfolding structural defer_result condition_reason
  incomplete partial structural_reason given =
      let reason = condition_reason partial structural_reason in
      elim given [
        | policy p ↦
            if authorizes p reason then defer_result partial reason p else structural partial reason
        | other ↦ structural partial reason
      ]

  -- The branch with a complete trace vector.
  decided : TraceVector → Verdict → OutcomeResult
  unfolding make_result
  decided tv admit = make_result admitted "ok" "trace_vector" (of_trace tv) (
      field "root_conflict" (bool false)
        (field "complete_trace" (bool true) (field "aggregate" (text "ADMIT") end)))
  decided tv (refusal why) =
      make_result refused_outcome (reason_text why) "trace_vector" (of_trace tv) (
        field "root_conflict" (bool false)
          (field "complete_trace" (bool true) (field "aggregate" (text "REFUSE") end)))

  crisis_result : RootConflict → OutcomeResult
  unfolding make_result
  crisis_result c =
      make_result crisis "root-frame-jurisdiction-conflict" "root_conflict" (of_conflict c)
        (field "root_conflict" (bool true) end)

  -- The tests behind the guards on the types of the arguments.
  after_guards :
      Option RootConflict
      → TraceArgument
      → Option PartialTrace
      → Option String
      → PolicyArgument
      → Classified
  unfolding crisis_result incomplete decided aggregate
  after_guards (some c) trace partial reason given = classified (crisis_result c)
  after_guards none no_trace partial reason given = classified (incomplete partial reason given)
  after_guards none (complete tv) partial reason given = classified (decided tv (aggregate tv))
  after_guards none _ partial reason given = not_a_trace_vector

  unfoldable pub classify :
      Option RootConflict
      → TraceArgument
      → Option PartialTrace
      → Option String
      → PolicyArgument
      → Classified
  unfolding after_guards
  classify root trace partial reason not_a_policy = ambient_policy
  classify root (partial_as_trace p) partial reason given = partial_is_not_complete
  classify root (complete tv) partial (some r) given = contradictory_inputs
  classify root not_a_trace partial (some r) given = contradictory_inputs
  classify root trace partial reason given = after_guards root trace partial reason given
