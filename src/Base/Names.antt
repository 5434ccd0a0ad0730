-- ===== src/Base/Names.antt =====
-- Python's sets of texts, as lists under a membership test, with the measure by which a search
-- with a `seen` set ends.
use Prim.Native.Nat.{ℕ, suc, ◌<◌, ◌≤◌}
use Prim.Native.String.{String}
use mathlib.Core.Path.{◌≡◌, refl, ap}
use mathlib.Core.Bool.{Bool, true, false, ◌&&◌, ◌||◌}
use mathlib.Core.List.{List, [], ◌∷◌}
use native.Mathlib.Omega.{arith}
use text.Mathlib.Text.{◌==◌}
use text.Mathlib.TextEquality.{eq_iff}
use mathlib.Core.Logic.{inl, inr}
use ugk.Base.Tests.{if◌then◌else◌, Bool-cases}
use ugk.Base.Lists.{length}

-- `x in xs`
unfoldable pub elem : String → List String → Bool
elem x [] = false
elem x (y ∷ ys) = x == y || elem x ys

-- `set(xs) <= set(ys)`
unfoldable pub subset : List String → List String → Bool
subset [] ys = true
subset (x ∷ xs) ys = elem x ys && subset xs ys

-- How many of `keys` are not yet in `seen`.
pub unseen : List String → List String → ℕ
unseen seen [] = 0
unseen seen (k ∷ ks) = let n = unseen seen ks in if elem k seen then n else suc n

pub subset-elem :
    (xs ys : List String) (a : String) → subset xs ys ≡ true → elem a xs ≡ true → elem a ys ≡ true
unfolding subset elem
subset-elem [] ys a h m = ground arith
subset-elem (x ∷ xs) ys a h m = ground (arith, subset-elem xs ys a, eq_iff a x)

-- The measure does not grow, and falls when a key that was not seen is added.
unseen-le : (a : String) (seen ks : List String) → unseen (a ∷ seen) ks ≤ unseen seen ks
unfolding unseen elem
unseen-le a seen [] = omega arith
unseen-le a seen (k ∷ ks) = ground (arith, unseen-le a seen ks)

pub unseen-lt :
    (a : String) (seen ks : List String)
    → elem a seen ≡ false
    → elem a ks ≡ true
    → unseen (a ∷ seen) ks < unseen seen ks
unfolding unseen elem
unseen-lt a seen [] h m = ground arith
unseen-lt a seen (k ∷ ks) h m =
    ground (arith, unseen-le a seen ks, unseen-lt a seen ks h, eq_iff a k, eq_iff k a)

pub subset_refl_cons :
    (xs ys : List String) (a : String) → subset xs ys ≡ true → subset xs (a ∷ ys) ≡ true
unfolding subset elem
subset_refl_cons [] ys a h = refl
subset_refl_cons (x ∷ xs) ys a h = ground (arith, subset_refl_cons xs ys a)

pub subset_refl : (xs : List String) → subset xs xs ≡ true
unfolding subset elem
subset_refl [] = refl
subset_refl (x ∷ xs) = ground (arith, eq_iff x x, subset_refl_cons xs xs x (subset_refl xs))

pub subset_trans :
    (xs ys zs : List String) → subset xs ys ≡ true → subset ys zs ≡ true → subset xs zs ≡ true
unfolding subset
subset_trans [] ys zs h k = refl
subset_trans (x ∷ xs) ys zs h k = ground (arith, subset-elem ys zs x k, subset_trans xs ys zs)

pub unseen_nil : (ks : List String) → unseen [] ks ≡ length ks
unfolding unseen elem
unseen_nil [] = refl
unseen_nil (k ∷ ks) = ap suc (unseen_nil ks)

-- No more is unseen where more has been seen.
pub unseen_mono :
    (seen more ks : List String)
    → ((a : String) → elem a seen ≡ true → elem a more ≡ true)
    → unseen more ks ≤ unseen seen ks
unfolding unseen
unseen_mono seen more [] h = omega arith
unseen_mono seen more (k ∷ ks) h = elim (Bool-cases (elem k seen)) [
  | inl e ↦ rw (e, h k e) (unseen_mono seen more ks h)
  | inr e ↦ ground (arith, unseen_mono seen more ks h)
]
