-- ===== src/Base/Lists.antt =====
-- Lists measured by native numbers, and predicates over their items.
use Prim.Native.Nat.{ℕ, suc, ◌+◌}
use mathlib.Core.Path.{◌≡◌, refl, sym, ap, ◌∙◌}
use mathlib.Core.Logic.{◌⊎◌, ◌↔◌, inl, inr}
use mathlib.Core.Bool.{Bool, true, false, ◌&&◌, ◌||◌}
use mathlib.Core.List.{List, [], ◌∷◌, ◌++◌}
use mathlib.Core.Option.{Option, none, some}
use native.Mathlib.Omega.{arith}
use ugk.Base.Tests.{if◌then◌else◌, Bool-cases}

module _ {ℓ} {A : Type ℓ} where
  abbrev pub length : List A → ℕ
  length [] = 0
  length (x ∷ xs) = suc (length xs)

  -- Python's `any` and `all`.
  abbrev pub any : (A → Bool) → List A → Bool
  any p [] = false
  any p (x ∷ xs) = p x || any p xs

  abbrev pub all : (A → Bool) → List A → Bool
  all p [] = true
  all p (x ∷ xs) = p x && all p xs

  -- A list comprehension with a condition.
  abbrev pub keep : (A → Bool) → List A → List A
  keep p [] = []
  keep p (x ∷ xs) = if p x then x ∷ keep p xs else keep p xs

  -- `next((x for x in xs if p x), None)`.
  abbrev pub find : (A → Bool) → List A → Option A
  find p [] = none
  find p (x ∷ xs) = if p x then some x else find p xs

  pub length-append : (xs ys : List A) → length (xs ++ ys) ≡ length xs + length ys
  length-append [] ys = omega arith
  length-append (x ∷ xs) ys = omega (arith, length-append xs ys)

-- A predicate of every item, by recursion.
abbrev pub All {ℓ κ} : {A : Type ℓ} → (A → Type κ) → List A → Type κ
All P [] = Unit
All P (x ∷ xs) = P x × All P xs

pub All-append {ℓ κ} :
    {A : Type ℓ} (P : A → Type κ) (xs ys : List A) → All P xs → All P ys → All P (xs ++ ys)
All-append P [] ys hx hy = hy
All-append P (x ∷ xs) ys hx hy = (hx.0, All-append P xs ys hx.1 hy)

-- The item stands in the list.
abbrev pub Among : {A : Type 0} → A → List A → Type 0
Among x [] = ⊥
Among x (y ∷ ys) = (x ≡ y) ⊎ Among x ys

-- What `keep` keeps.
pub Among-keep :
    {A : Type 0} (p : A → Bool) (xs : List A) (x : A)
    → Among x (keep p xs) ↔ (Among x xs × (p x ≡ true))
Among-keep p [] x = (λ h. absurd h, λ (h, t). h)
Among-keep p (y ∷ ys) x =
    let (to, from) = Among-keep p ys x in
    elim (Bool-cases (p y)) [
      | inl e ↦ rw e (
        λ h. elim h [ inl same ↦ (inl same, ap p same ∙ e) | inr m ↦ (inr (to m).0, (to m).1) ],
        λ (h, t). elim h [ inl same ↦ inl same | inr m ↦ inr (from (m, t)) ],
      )
      | inr e ↦ rw e (
        λ h. (inr (to h).0, (to h).1),
        λ (h, t). elim h [
          | inl same ↦ absurd (let z = sym (ap p same ∙ e) ∙ t in cc)
          | inr m ↦ from (m, t)
        ],
      )
    ]

-- What `any` finds.
pub Among-any :
    {A : Type 0} (p : A → Bool) (xs : List A)
    → (any p xs ≡ true) ↔ ((x : A) × Among x xs × (p x ≡ true))
Among-any p [] = (λ h. absurd (cc), λ (x, m, t). absurd m)
Among-any p (y ∷ ys) =
    let (to, from) = Among-any p ys in
    elim (Bool-cases (p y)) [
      | inl e ↦ rw e (λ h. (y, inl refl, e), λ h. refl)
      | inr e ↦ rw e (
        λ h. let (x, m, t) = to h in (x, inr m, t),
        λ (x, m, t). elim m [
          | inl same ↦ absurd (let z = sym (ap p same ∙ e) ∙ t in cc)
          | inr m' ↦ from (x, m', t)
        ],
      )
    ]
