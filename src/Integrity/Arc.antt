-- ===== src/Integrity/Arc.antt =====
-- When a forward effect may be compensated (`find_committed_forward`,
-- ugk/integrity/external_reversible.py).
use ugk.Base.{
  String, Bool, true, false, Option, none, some, List, [], ◌∷◌, ◌≡◌, ◌↔◌, refl, ◌∙◌, arith, not,
  ◌&&◌, ◌||◌, any, ◌==◌,
}
use ugk.Json.{Json, text, get, json_eq, json_eq-text}
use ugk.Store.Receipt.{Receipt}
use ugk.Integrity.Trail.{view, is_phase}
use ugk.Integrity.Reversible.{
  Arc, no_arc, refers, arc_step, arc_from, compensable, find_committed_forward,
}

-- A receipt has one phase.
one_phase :
    (a b : String) (r : Receipt) (v : Json)
    → (a == b) ≡ false
    → json_eq v (text a) ≡ true
    → json_eq v (text b) ≡ false
unfolding json_eq
one_phase a b r v d h = rw (json_eq-text v a h) d

refers_once :
    (a b k j : String) (ref : Json) (r : Receipt)
    → (a == b) ≡ false
    → refers a k ref r ≡ true
    → refers b j ref r ≡ false
unfolding refers is_phase
refers_once a b k j ref r d h = ground (arith, one_phase a b r (get "phase" (view r)) d)

unfoldable pub is_some : Option (String × Json) → Bool
is_some none = false
is_some (some c) = true

step_facts :
    (ref : Json) (arc : Arc) (r : Receipt)
    → (is_some (arc_step ref arc r).committed
        ≡ (is_some arc.committed || refers "commit" "prepare_ref" ref r))
      × ((arc_step ref arc r).aborted ≡ (arc.aborted || refers "abort" "prepare_ref" ref r))
      × ((arc_step ref arc r).already_compensated
          ≡ (arc.already_compensated || refers "compensate" "compensate_ref" ref r))
unfolding arc_step is_some
step_facts ref arc r =
    let ca = refers_once "commit" "abort" "prepare_ref" "prepare_ref" ref r refl in
    let cc = refers_once "commit" "compensate" "prepare_ref" "compensate_ref" ref r refl in
    let ac = refers_once "abort" "compensate" "prepare_ref" "compensate_ref" ref r refl in
    (ground (arith, ca, cc, ac), ground (arith, ca, cc, ac), ground (arith, ca, cc, ac))

step_compensable :
    (arc : Arc)
    → is_some (compensable arc)
      ≡ (is_some arc.committed && not arc.aborted && not arc.already_compensated)
unfolding compensable is_some
step_compensable arc = ground arith

-- What the loop makes of the three variables.
arc_facts :
    (ref : Json) (arc : Arc) (rs : List Receipt)
    → (is_some (arc_from ref arc rs).committed
        ≡ (is_some arc.committed || any (λ r. refers "commit" "prepare_ref" ref r) rs))
      × ((arc_from ref arc rs).aborted
          ≡ (arc.aborted || any (λ r. refers "abort" "prepare_ref" ref r) rs))
      × ((arc_from ref arc rs).already_compensated
          ≡ (arc.already_compensated || any (λ r. refers "compensate" "compensate_ref" ref r) rs))
unfolding arc_from
arc_facts ref arc [] = (ground arith, ground arith, ground arith)
arc_facts ref arc (r ∷ rs) =
    let later = arc_facts ref (arc_step ref arc r) rs in
    let here = step_facts ref arc r in
    (
      later.0 ∙ joined _ _ _ _ here.0,
      later.1 ∙ joined _ _ _ _ here.1,
      later.2 ∙ joined _ _ _ _ here.2,
    )
  where
    joined : (s a b c : Bool) → s ≡ (a || b) → (s || c) ≡ (a || (b || c))
    joined s a b c e = ground arith

three :
    (s c a o x y z : Bool)
    → s ≡ (c && not a && not o)
    → c ≡ x
    → a ≡ y
    → o ≡ z
    → s ≡ true ↔ ((x ≡ true) × (y ≡ false) × (z ≡ false))
three s c a o x y z e p q r = (λ h. ground arith, λ (u, v, w). ground arith)

-- A forward effect may be compensated exactly when the trail has a commit of it, and neither an
-- abort of it nor a compensate that refers to it: so there is at most one compensation.
pub find_committed_forward-some :
    (rs : List Receipt) (ref : Json)
    → is_some (find_committed_forward rs ref) ≡ true ↔ (
        (any (λ r. refers "commit" "prepare_ref" ref r) rs ≡ true)
        × (any (λ r. refers "abort" "prepare_ref" ref r) rs ≡ false)
        × (any (λ r. refers "compensate" "compensate_ref" ref r) rs ≡ false))
unfolding find_committed_forward is_some
find_committed_forward-some rs ref =
    let (c, a, o) = arc_facts ref no_arc rs in
    three _ _ _ _ _ _ _ (step_compensable (arc_from ref no_arc rs)) c a o
