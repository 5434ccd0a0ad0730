-- ===== src/Kernel/DeferralTests.antt =====
-- Deferral and resumption (ugk/kernel.py), on the samples of the store.
use ugk.Base.Dict
use ugk.Base.{none, some, [], ◌∷◌, ◌++◌, ◌≡◌, true, false, ◌⊎◌, refl, String}
use ugk.Json.{null, text, obj, end, field, int, get, has, json_eq, keep_fields, serializable_fields}
use ugk.Store.Attempt.{returned}
use ugk.Store.Receipt.{Receipt}
use ugk.Store.Continuation.{
  Reader, bears, committed_height, continuation_expired, find_continuation,
}
use ugk.Store.Samples.{world, body, row, store}
use ugk.Kernel.Node.{Node, emit, lifted, proceed}
use ugk.Kernel.Request.{admits, pure}
use ugk.Kernel.Execute.{execute}
use ugk.Kernel.Horizon.{
  horizon, intent_verdict, capability_step, declared_step, gate_step, intent_step, locality_step,
  model_step,
}
use ugk.Kernel.Continuation.{
  is_held, Resumption, Deferral, deferred_id, defer_operation, resume_continuation,
}
use ugk.Kernel.Resumed.{IsUnresumed, IsResumable, IsAdmitted, resume_continuation-Resumes}
use ugk.Kernel.Resolved.{IsStored, defer_operation-IsStored, resume_continuation-once}
use ugk.Kernel.Tests.{node, returns, session}
use ugk.Store.Append.{write}
use ugk.Store.Write.{commit, resolve}
use ugk.Store.Effect.{resolve_effect_surface}
use ugk.Store.World.{canonical_path_for, effective_capabilities}
use ugk.Authority.Graph.{add_edge, canonical_path, has_subject, walk}
use ugk.Base.Names.{elem, subset}
use ugk.Authority.Capabilities.{compute_effective_capabilities}
use ugk.Binding.Merkle.{
  compute_h_r, encode_leaves, leaf_encoding, merkle_level, merkle_root, pair_up, sort_leaves,
}
use ugk.Store.Emit.{assert_emittable, derive_committed_outcome}
use ugk.Kernel.Preflight.{
  authority_of, authority_set_valid, effect_valid, has_float_fields, parameters_of, preflight,
  warrant_basis_valid,
}
use ugk.Cgp.Sufficiency.{find_enforced_entry}
use ugk.Kernel.Admit.{admit, success_call, warrant_step}
use ugk.Store.Epoch.{transaction}

abbrev quiet : Node
quiet = record node { faults = [] }

abbrev deferral : Deferral
deferral = record {
  op = "deploy";
  authority = "";
  parameters = end;
  jurisdiction = "session";
  expiry_basis = null;
  anchor = none;
}

abbrev deferred : Node
deferred = (defer_operation world session deferral quiet).1

abbrev held_id : String
held_id = deferred_id world session deferral quiet

defer_operation-IsStored_example : IsStored world session deferral held_id deferred
unfolding defer_operation proceed lifted emit write resolve resolve_effect_surface get
    serializable_fields keep_fields commit canonical_path_for canonical_path walk Dict.keys
    has_subject Dict.get add_edge Dict.put elem effective_capabilities
    compute_effective_capabilities subset compute_h_r sort_leaves encode_leaves leaf_encoding
    merkle_root merkle_level pair_up assert_emittable derive_committed_outcome json_eq has
defer_operation-IsStored_example =
    defer_operation-IsStored world session deferral quiet held_id refl refl

abbrev held_row : Receipt
held_row = record row {
  body = record body {
    continuation = record {
      continuation_id = text "held";
      continuation_op = text "deploy";
      continuation_authority = text "kernel";
      continuation_parameters = null;
      continuation_jurisdiction = text "session";
      continuation_expiry_basis = text "basis";
      continuation_state = text "HELD";
      continuation_model_id = text "continuation_record_model_v1";
    };
  };
}

abbrev holding : Node
holding = record quiet { store = record store { rows = held_row ∷ [] } }

abbrev reader : Reader
reader = record {
  loads = λ s. returned (obj (field "kind" (text "receipt_height") (field "value" (int 9) end)));
  to_int = λ v. returned 0;
}

abbrev resumption : Resumption
resumption = record { gate = some admits; effect = some returns; effect_atomicity = some pure }

resume_continuation-Resumes_example :
    IsUnresumed holding (resume_continuation world session reader resumption "held" holding)
    ⊎ (IsResumable reader "held" holding
        × IsAdmitted holding (resume_continuation world session reader resumption "held" holding))
resume_continuation-Resumes_example =
    resume_continuation-Resumes world session reader resumption "held" holding

abbrev resumed : Node
resumed = (resume_continuation world session reader resumption "held" holding).1

-- The rows of the resumption, and one of another operation behind them.
abbrev later : Node
later = record resumed { store = record resumed.store { rows = resumed.store.rows ++ row ∷ [] } }

unborne : bears "held" row ≡ true → is_held row ≡ false
unfolding json_eq
unborne h = absurd (cc)

resume_continuation-once_example :
    IsUnresumed later (resume_continuation world session reader resumption "held" later)
unfolding resume_continuation find_continuation json_eq proceed lifted continuation_expired get has
    committed_height execute preflight authority_of parameters_of serializable_fields
    has_float_fields warrant_basis_valid authority_set_valid effect_valid horizon declared_step elem
    model_step gate_step capability_step find_enforced_entry locality_step intent_step
    intent_verdict admit emit write resolve resolve_effect_surface keep_fields commit
    canonical_path_for canonical_path walk Dict.keys has_subject Dict.get add_edge Dict.put
    effective_capabilities compute_effective_capabilities subset compute_h_r sort_leaves
    encode_leaves leaf_encoding merkle_root merkle_level pair_up warrant_step transaction
    success_call assert_emittable derive_committed_outcome
resume_continuation-once_example =
    resume_continuation-once world world session session reader reader resumption resumption "held"
      holding later (row ∷ []) refl refl (unborne, tt)
