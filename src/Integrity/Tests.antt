-- ===== src/Integrity/Tests.antt =====
-- The theorems about the trails (ugk/integrity/), applied to a short trail.
use ugk.Base.{String, Among, ◌↔◌, true, List, [], ◌∷◌, ◌≡◌, refl}
use ugk.Json.{Json, null, text}
use ugk.Store.Receipt.{Receipt, no_effect}
use ugk.Store.Samples.{body}
use ugk.Integrity.Irreversible.{in_doubt}
use ugk.Integrity.Reversible.{
  forward_in_doubt, compensation_in_doubt, refers, find_committed_forward,
}
use ugk.Integrity.InDoubt.{
  IsInDoubt, IsPhase, IsOffset, in_doubt-IsInDoubt, compensation_in_doubt-IsOffset,
}
use ugk.Integrity.Arc.{is_some, find_committed_forward-some}

abbrev phase : String → String → Json → Json → Receipt
phase atomicity name prepare_ref compensate_ref = record {
  body = record body {
    effect = record no_effect {
      effect_atomicity = text atomicity;
      effect_phase = text name;
      effect_idempotency_key = text "k";
      effect_compensation_idempotency_key = text "c";
      effect_prepare_ref = prepare_ref;
      effect_compensate_ref = compensate_ref;
    };
  };
  receipt_id = 0;
  h_body = "plain";
  trace_vector_hash = null;
}

abbrev prepare : Receipt
prepare = phase "external_irreversible" "prepare" null null

-- An abort of the same key that names another prepare.
abbrev other : Receipt
other = phase "external_irreversible" "abort" (text "root.v2") null

in_doubt-IsInDoubt_example :
    (Among prepare (in_doubt (prepare ∷ other ∷ []))
      ↔ IsInDoubt "external_irreversible" (prepare ∷ other ∷ []) prepare)
    × (Among prepare (forward_in_doubt (prepare ∷ other ∷ []))
        ↔ IsInDoubt "external_reversible" (prepare ∷ other ∷ []) prepare)
in_doubt-IsInDoubt_example = in_doubt-IsInDoubt (prepare ∷ other ∷ []) prepare

abbrev compensate : Receipt
compensate = phase "external_reversible" "compensate" null (text "root.v1")

abbrev failed : Receipt
failed = phase "external_reversible" "compensation_failed" null (text "root.v1")

compensation_in_doubt-IsOffset_example :
    Among compensate (compensation_in_doubt (compensate ∷ failed ∷ [])) ↔ (
      Among compensate (compensate ∷ failed ∷ [])
      × IsPhase "external_reversible" "compensate" compensate
      × (IsOffset (compensate ∷ failed ∷ []) compensate → ⊥))
compensation_in_doubt-IsOffset_example =
    compensation_in_doubt-IsOffset (compensate ∷ failed ∷ []) compensate

abbrev forward : List Receipt
forward =
    phase "external_reversible" "prepare" null null
    ∷ phase "external_reversible" "commit" (text "root.v1") null
    ∷ []

find_committed_forward-some_example :
    is_some (find_committed_forward forward (text "root.v1")) ≡ true
unfolding refers ugk.Json.json_eq ugk.Json.get ugk.Json.set
find_committed_forward-some_example =
    (find_committed_forward-some forward (text "root.v1")).1 (refl, refl, refl)
