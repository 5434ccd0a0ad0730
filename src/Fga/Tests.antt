-- ===== src/Fga/Tests.antt =====
-- The theorems about the trace vector and the terminal outcome (ugk/fga/), applied to the sample
-- receipts.
use ugk.Base.{String, Bool, true, none, some, [], ◌∷◌, ◌≡◌, ◌↔◌, refl}
use ugk.Base.Names.{elem}
use ugk.Binding.Canon.{commit_s}
use ugk.Store.Body.{compute_h_body}
use ugk.Store.Built.{empty, plain_call, first_built}
use ugk.Store.Samples.{digest-nonempty, world, hash, row}
use ugk.Fga.Surface.{committed_surfaces}
use ugk.Fga.Trace.{FrameRef, TraceVector, vector_of}
use ugk.Fga.Aggregate.{admit, aggregate, IsAdmissible, aggregate-IsAdmissible}
use ugk.Fga.Written.{aggregate-prepare}
use ugk.Fga.Receipts.{IsSound, aggregate-vector_of}
use ugk.Fga.Terminal.{
  PartialTrace, DeferPolicy, no_trace, complete, no_policy, policy, deferred, classify,
  condition_reason,
}
use ugk.Fga.Outcomes.{outcome_of, IsDecidedBy, classify-admitted, classify-deferred}

abbrev hexdigest : String → Bool
hexdigest h = true

abbrev frame : FrameRef
frame = record { law_hash = "law"; schema_hash = "s"; legend_hash = "legend"; codex_hash = "c" }

abbrev vector : TraceVector
vector = vector_of hash hexdigest committed_surfaces row frame

aggregate-IsAdmissible_example : IsAdmissible vector
unfolding aggregate vector_of commit_s compute_h_body ugk.Json.json_eq ugk.Json.get
    ugk.Store.Body.body_fields ugk.Store.Body.versioned_fields ugk.Store.Body.terminal_fields
    ugk.Store.Body.capability_fields ugk.Store.Body.effect_fields
    ugk.Store.Body.reconciliation_fields
aggregate-IsAdmissible_example = (aggregate-IsAdmissible vector).0 refl

aggregate-vector_of_example : IsSound hash hexdigest row frame
unfolding aggregate vector_of commit_s compute_h_body ugk.Json.json_eq ugk.Json.get
    ugk.Store.Body.body_fields ugk.Store.Body.versioned_fields ugk.Store.Body.terminal_fields
    ugk.Store.Body.capability_fields ugk.Store.Body.effect_fields
    ugk.Store.Body.reconciliation_fields
aggregate-vector_of_example = (aggregate-vector_of hash hexdigest row frame).0 refl

aggregate-prepare_example :
    (aggregate (vector_of hash hexdigest committed_surfaces row frame) ≡ admit)
    ↔ ((plain_call.law_hash ≡ frame.law_hash) × (plain_call.legend_hash ≡ frame.legend_hash))
aggregate-prepare_example =
    aggregate-prepare world empty plain_call row frame digest-nonempty (λ parts. refl) first_built
      (record { effect = refl; reconciliation = refl; continuation = refl; bridge = refl })

classify-admitted_example :
    (tv : TraceVector) × IsDecidedBy none (complete vector) none no_policy tv × IsAdmissible tv
unfolding classify vector_of commit_s compute_h_body ugk.Json.json_eq ugk.Json.get
    ugk.Store.Body.body_fields ugk.Store.Body.versioned_fields ugk.Store.Body.terminal_fields
    ugk.Store.Body.capability_fields ugk.Store.Body.effect_fields
    ugk.Store.Body.reconciliation_fields
classify-admitted_example =
    (classify-admitted hash none (complete vector) none none no_policy).0 refl

abbrev pending : PartialTrace
pending = record { resolved = []; pending = "D_m" ∷ []; reason = "undeclared" }

abbrev waits : DeferPolicy
waits = record {
  reason = "quorum";
  authority_boundary = "Governor";
  continuation_condition = "declared";
  applies_to = "undeclared" ∷ [];
}

classify-deferred_example :
    outcome_of (classify hash none no_trace (some pending) none (policy waits)) ≡ some deferred
unfolding elem condition_reason
classify-deferred_example =
    (classify-deferred hash none no_trace (some pending) none (policy waits)).1
      (refl, refl, (waits, refl, refl))
