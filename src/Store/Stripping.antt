-- ===== src/Store/Stripping.antt =====
-- What the effect surface leaves in the parameters of a receipt (`_resolve_effect_surface`,
-- ugk/storage/store.py).
use ugk.Base.{
  String, Bool, true, false, Option, none, some, ◌≡◌, ◌≢◌, inl, inr, Bool-cases, refl, ap, not,
  arith, eq_iff, subst,
}
use ugk.Base.Names.{elem}
use ugk.Json.{Fields, end, field, has, get, is_null, keep_fields}
use ugk.Store.Receipt.{EffectColumns}
use ugk.Store.Attempt.{Attempt, raised, returned, >>=-returned}
use ugk.Store.Effect.{
  marker_keys, strip_markers, derive_effect_columns, marker_primary, column_primary, check_markers,
  domain_checks, descriptor_to_columns, resolve_effect_surface,
}

-- A marker key is stripped from the parameters, whatever they hold.
has_keep :
    (keep : String → Bool) (k : String) (fs : Fields)
    → keep k ≡ false
    → has k (keep_fields keep fs) ≡ false
unfolding has keep_fields
has_keep keep k end h = refl
has_keep keep k (field j v fs) h = ground (arith, has_keep keep k fs h, eq_iff j k)

first_of : Attempt (Option EffectColumns × Fields) → Option EffectColumns
first_of (returned (c, q)) = c
first_of (raised e) = none

none-some : {c : EffectColumns} → none ≢ some c
none-some h = cc

second_of : Attempt (Option EffectColumns × Fields) → Fields → Fields
second_of (returned (c, q)) p = q
second_of (raised e) p = p

marker_rest :
    (p q : Fields) (o : Option EffectColumns) (c : EffectColumns)
    → marker_primary false p o ≡ returned (some c, q)
    → strip_markers p ≡ q
unfolding marker_primary second_of first_of
marker_rest p q none c h = absurd (none-some (ap first_of h))
marker_rest p q (some d) c h = ap (λ m. second_of m p) h

check_rest :
    (p q : Fields) (columns c : EffectColumns)
    → check_markers false p columns ≡ returned (some c, q)
    → strip_markers p ≡ q
unfolding check_markers
check_rest p q columns c h = ground arith

column_opened :
    (p q d : Fields) (c : EffectColumns)
    → column_primary false p d ≡ returned (some c, q)
    → (columns : EffectColumns) × (check_markers false p columns ≡ returned (some c, q))
unfolding column_primary first_of
column_opened p q d c h = elim (Bool-cases (is_null (get "effect_atomicity" d))) [
  | inl e ↦ absurd (none-some (ap first_of (rw e at h)))
  | inr e ↦
      let (columns, _, r) =
        >>=-returned
          (domain_checks (get "effect_atomicity" d) (get "effect_phase" d)
            (descriptor_to_columns d))
          (λ columns. check_markers false p columns) (some c, q) (rw e at h) in
      (columns, r)
]

resolved_rest :
    (p q : Fields) (o : Option Fields) (c : EffectColumns)
    → resolve_effect_surface p o false ≡ returned (some c, q)
    → strip_markers p ≡ q
unfolding resolve_effect_surface
resolved_rest p q none c h =
    let (o, _, r) = >>=-returned (derive_effect_columns p) _ (some c, q) h in marker_rest p q o c r
resolved_rest p q (some d) c h =
    let (columns, r) = column_opened p q d c h in check_rest p q columns c r

marker_tests : (k : String) → elem k marker_keys ≡ true → not (elem k marker_keys) ≡ false
marker_tests k h = rw h refl

-- The parameters that an effect-bearing receipt commits hold none of the eight marker keys, whether
-- the columns came from a descriptor or from the markers themselves.
resolve_effect_surface-stripped :
    (p q : Fields) (descriptor : Option Fields) (c : EffectColumns) (k : String)
    → resolve_effect_surface p descriptor false ≡ returned (some c, q)
    → elem k marker_keys ≡ true
    → has k q ≡ false
unfolding strip_markers
resolve_effect_surface-stripped p q o c k h m =
    subst (λ (fs : Fields). has k fs ≡ false) (resolved_rest p q o c h)
      (has_keep (λ k. not (elem k marker_keys)) k p (marker_tests k m))
