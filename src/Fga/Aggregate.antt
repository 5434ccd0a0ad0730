-- ===== src/Fga/Aggregate.antt =====
-- The aggregation operator `conjunctive_refusal_monotone_v1` (`aggregate`, ugk/fga/trace_vector.py).
use ugk.Base.{
  String, Bool, true, false, List, [], ◌∷◌, ◌==◌, not, ◌&&◌, map, All, if◌then◌else◌, ◌≡◌, refl,
  ◌↔◌, arith, eq_iff,
}
use ugk.Fga.Surface.{committed_surfaces}
use ugk.Fga.Trace.{
  Result, pass, refuse, ReasonCode, r_body_integrity, r_frame_mismatch, operator_id_mismatch,
  incomplete_or_reordered, SurfaceResult, TraceVector, operator_id,
}

-- `ADMIT` or `REFUSE`, with the reason.
pub data Verdict : Type 0 where
  admit : Verdict
  refusal : ReasonCode → Verdict

abbrev pub displayed : List SurfaceResult → List String
displayed ss = map (λ s. s.surface_id) ss

abbrev pub expected : List String
expected = map (λ s. s.surface_id) committed_surfaces

unfoldable pub same_names : List String → List String → Bool
same_names [] [] = true
same_names (x ∷ xs) (y ∷ ys) = x == y && same_names xs ys
same_names _ _ = false

abbrev pub is_pass : Result → Bool
is_pass pass = true
is_pass refuse = false

-- The loop over the surfaces, then the tests behind it.
unfoldable pub conjunction : Bool → Bool → List SurfaceResult → Verdict
conjunction integrity_ok frame_consistent [] =
    if not integrity_ok
    then refusal r_body_integrity
    else if not frame_consistent
    then refusal r_frame_mismatch
    else admit
conjunction integrity_ok frame_consistent (s ∷ ss) =
    let rest = conjunction integrity_ok frame_consistent ss in
    if not (is_pass s.result) then refusal s.reason_code else rest

unfoldable pub aggregate : TraceVector → Verdict
unfolding conjunction same_names
aggregate tv =
    if not (tv.aggregation_operator_id == operator_id)
    then refusal operator_id_mismatch
    else if not (same_names (displayed tv.surfaces) expected)
    then refusal incomplete_or_reordered
    else conjunction tv.integrity_ok tv.frame_consistent tv.surfaces

abbrev pub Passes : SurfaceResult → Type 0
Passes s = s.result ≡ pass

-- What an admitted vector displays, with no mention of an order of tests.
pub record IsAdmissible (tv : TraceVector) : Type 0 where
  pub operator : tv.aggregation_operator_id ≡ operator_id
  pub complete : displayed tv.surfaces ≡ expected
  pub passing : All Passes tv.surfaces
  pub intact : tv.integrity_ok ≡ true
  pub in_frame : tv.frame_consistent ≡ true

pub same_names_refl : (xs : List String) → same_names xs xs ≡ true
unfolding same_names
same_names_refl [] = refl
same_names_refl (x ∷ xs) = ground (arith, eq_iff x x, same_names_refl xs)

same_names-≡ : (xs ys : List String) → same_names xs ys ≡ true → xs ≡ ys
unfolding same_names
same_names-≡ [] [] h = refl
same_names-≡ [] (y ∷ ys) h = ground arith
same_names-≡ (x ∷ xs) [] h = ground arith
same_names-≡ (x ∷ xs) (y ∷ ys) h = grind (arith, eq_iff x y, same_names-≡ xs ys)

conjunction-admit :
    (i f : Bool) (ss : List SurfaceResult)
    → conjunction i f ss ≡ admit
    → All Passes ss × (i ≡ true) × (f ≡ true)
unfolding conjunction
conjunction-admit i f [] h = ground arith
conjunction-admit i f (s ∷ ss) h = ground (arith, conjunction-admit i f ss)

admit-conjunction : (ss : List SurfaceResult) → All Passes ss → conjunction true true ss ≡ admit
unfolding conjunction
admit-conjunction [] h = refl
admit-conjunction (s ∷ ss) (h, hs) = rw h (admit-conjunction ss hs)

aggregate-admit :
    (tv : TraceVector)
    → aggregate tv ≡ admit
    → (tv.aggregation_operator_id ≡ operator_id)
      × (same_names (displayed tv.surfaces) expected ≡ true)
      × (conjunction tv.integrity_ok tv.frame_consistent tv.surfaces ≡ admit)
unfolding aggregate
aggregate-admit tv h = ground (arith, eq_iff tv.aggregation_operator_id operator_id)

IsAdmissible-aggregate : (tv : TraceVector) → IsAdmissible tv → aggregate tv ≡ admit
unfolding aggregate
IsAdmissible-aggregate tv h =
    rw
      (
        (eq_iff tv.aggregation_operator_id operator_id).1 h.operator,
        h.complete,
        h.intact,
        h.in_frame,
      )
      (admit-conjunction tv.surfaces h.passing)

-- The operator admits a trace vector exactly when the vector names this operator, displays the
-- committed surfaces in their order and none besides, every surface passes, and body integrity
-- and frame consistency hold.
pub aggregate-IsAdmissible : (tv : TraceVector) → aggregate tv ≡ admit ↔ IsAdmissible tv
aggregate-IsAdmissible tv = (
  λ h.
      let parts = aggregate-admit tv h in
      let rest = conjunction-admit tv.integrity_ok tv.frame_consistent tv.surfaces parts.2 in
      record {
        operator = parts.0;
        complete = same_names-≡ (displayed tv.surfaces) expected parts.1;
        passing = rest.0;
        intact = rest.1;
        in_frame = rest.2;
      },
  IsAdmissible-aggregate tv,
)
