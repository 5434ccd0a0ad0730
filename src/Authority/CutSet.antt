-- ===== src/Authority/CutSet.antt =====
-- What `verify_a1` accepts: the claim is the set of the authorities without which the effect
-- would not be admitted.
use ugk.Base.{
  String, ◌≡◌, refl, ◌↔◌, Bool, true, false, eq_iff, List, [], ◌∷◌, arith, not, any, ◌&&◌, inl, inr,
  String-cases, ==_refl,
}
use ugk.Base.Names.{elem, subset, subset-elem}
use ugk.Authority.A1.{
  legit, EffectClaim, Route, v1_rule, fail_closed, routed, single_rule, v2_rule, route_version,
  without, cut_sets, reconstruct_auth, set_rule, verify_a1,
}

elem-cut_sets :
    (admissible : List String → Bool) (chain rest : List String) (a : String)
    → elem a (cut_sets admissible chain rest) ≡ (elem a rest && not (admissible (without a chain)))
unfolding cut_sets elem
elem-cut_sets adm chain [] a = refl
elem-cut_sets adm chain (x ∷ rest) a = elim (String-cases a x) [
  | inl (t, e) ↦ rw e (ground (arith, ==_refl x, elem-cut_sets adm chain rest x))
  | inr (t, n) ↦ ground (arith, t, elem-cut_sets adm chain rest a)
]

-- The reconstructed set holds an authority exactly when it stands in the chain and the effect is
-- not admitted under the chain without it.
elem-reconstruct_auth :
    (chain : List String) (admissible : List String → Bool) (a : String)
    → elem a (reconstruct_auth chain admissible)
      ≡ (elem a chain && not (admissible (without a chain)))
unfolding reconstruct_auth
elem-reconstruct_auth chain adm a = elem-cut_sets adm chain chain a

any-not-elem : (xs ys : List String) → any (λ a. not (elem a ys)) xs ≡ not (subset xs ys)
unfolding subset
any-not-elem [] ys = refl
any-not-elem (x ∷ xs) ys = ground (arith, any-not-elem xs ys)

-- A subset, by its members.
elem-subset :
    (xs ys : List String)
    → ((a : String) → elem a xs ≡ true → elem a ys ≡ true)
    → subset xs ys ≡ true
unfolding subset elem
elem-subset [] ys h = refl
elem-subset (x ∷ xs) ys h =
    rw (h x (ground (arith, ==_refl x)), elem-subset xs ys (λ a m. h a (ground (arith, m)))) refl

-- Without this authority of the chain the effect is not admitted.
pub record Ablates (chain : List String) (admissible : List String → Bool) (a : String)
    : Type 0 where
  pub stands : elem a chain ≡ true
  pub needed : admissible (without a chain) ≡ false

Ablates-iff :
    (chain : List String) (admissible : List String → Bool) (a : String)
    → (elem a (reconstruct_auth chain admissible) ≡ true) ↔ Ablates chain admissible a
Ablates-iff chain adm a =
    let e = elem-reconstruct_auth chain adm a in
    (
      λ h. record { stands = ground (arith, e, h); needed = ground (arith, e, h) },
      λ b. ground (arith, e, b.stands, b.needed),
    )

-- When a claim is legitimate, by the version of its canonical form.
pub data IsLegit (chain : List String) (claim : EffectClaim) (admissible : List String → Bool)
    : Type 0 where
  single :
      claim.cc_version ≡ "c_c.v1"
      → (a : String) → chain ≡ a ∷ []
      → admissible [] ≡ false
      → IsLegit chain claim admissible
  exact :
      claim.cc_version ≡ "c_c.v2"
      → ((a : String) → (elem a claim.claimed_authorities ≡ true) ↔ Ablates chain admissible a)
      → IsLegit chain claim admissible

-- The version picks the rule.
route_version-v1 : (v : String) → route_version v ≡ v1_rule → v ≡ "c_c.v1"
unfolding route_version
route_version-v1 v h = ground (arith, h, eq_iff v "c_c.v1")

route_version-v2 : (v : String) → route_version v ≡ v2_rule → v ≡ "c_c.v2"
unfolding route_version
route_version-v2 v h = ground (arith, h, eq_iff v "c_c.v1", eq_iff v "c_c.v2")

set_rule-exact :
    (chain claimed : List String) (admissible : List String → Bool)
    → set_rule (reconstruct_auth chain admissible) claimed ≡ legit
    → (a : String) → (elem a claimed ≡ true) ↔ Ablates chain admissible a
unfolding set_rule
set_rule-exact chain claimed adm h a =
    let actual = reconstruct_auth chain adm in
    let (to, from) = Ablates-iff chain adm a in
    let o = any-not-elem actual claimed in
    let p = any-not-elem claimed actual in
    let covered : subset actual claimed ≡ true = ground (arith, h, o, p) in
    let bare : subset claimed actual ≡ true = ground (arith, h, o, p) in
    (
      λ m. to (subset-elem claimed actual a bare m),
      λ b. subset-elem actual claimed a covered (from b),
    )

exact-set_rule :
    (chain claimed : List String) (admissible : List String → Bool)
    → ((a : String) → (elem a claimed ≡ true) ↔ Ablates chain admissible a)
    → set_rule (reconstruct_auth chain admissible) claimed ≡ legit
unfolding set_rule
exact-set_rule chain claimed adm h =
    let actual = reconstruct_auth chain adm in
    let covered = elem-subset actual claimed (λ a m. (h a).1 ((Ablates-iff chain adm a).0 m)) in
    let bare = elem-subset claimed actual (λ a m. (Ablates-iff chain adm a).1 ((h a).0 m)) in
    rw (any-not-elem actual claimed, any-not-elem claimed actual, covered, bare) refl

-- The chain of one authority that the effect needs.
single_rule-legit :
    (chain : List String) (admissible : List String → Bool)
    → single_rule chain (reconstruct_auth chain admissible) ≡ legit
    → (a : String) × (chain ≡ a ∷ []) × (admissible [] ≡ false)
unfolding single_rule reconstruct_auth cut_sets elem
single_rule-legit [] adm h = absurd (cc)
single_rule-legit (a ∷ b ∷ rest) adm h = absurd (cc)
single_rule-legit (a ∷ []) adm h = (a, refl, ground (arith, ==_refl a))

legit-single_rule :
    (a : String) (admissible : List String → Bool)
    → admissible [] ≡ false
    → single_rule (a ∷ []) (reconstruct_auth (a ∷ []) admissible) ≡ legit
unfolding single_rule reconstruct_auth cut_sets elem
legit-single_rule a adm h = ground (arith, h, ==_refl a)

routed-IsLegit :
    (route : Route) (chain : List String) (claim : EffectClaim) (admissible : List String → Bool)
    → route_version claim.cc_version ≡ route
    → routed route chain (reconstruct_auth chain admissible) claim.claimed_authorities ≡ legit
    → IsLegit chain claim admissible
unfolding routed
routed-IsLegit fail_closed chain claim adm e h = absurd (cc)
routed-IsLegit v1_rule chain claim adm e h =
    let (a, one, needed) = single_rule-legit chain adm h in
    single (route_version-v1 claim.cc_version e) a one needed
routed-IsLegit v2_rule chain claim adm e h =
    exact (route_version-v2 claim.cc_version e)
      (set_rule-exact chain claim.claimed_authorities adm h)

IsLegit-verify :
    (chain : List String) (claim : EffectClaim) (admissible : List String → Bool)
    → IsLegit chain claim admissible
    → verify_a1 true chain claim admissible ≡ legit
unfolding verify_a1 routed route_version
IsLegit-verify chain claim adm (single v a one needed) =
    rw (v, one) (legit-single_rule a adm needed)
IsLegit-verify chain claim adm (exact v h) =
    rw v (exact-set_rule chain claim.claimed_authorities adm h)

-- A claim is legitimate exactly when the verifier is on and either the first version stands over a
-- chain of one authority without which the effect is not admitted, or the second version claims just
-- the authorities of the chain without each of which the effect is not admitted.
pub verify_a1-IsLegit :
    (enabled : Bool) (chain : List String) (claim : EffectClaim) (admissible : List String → Bool)
    → (verify_a1 enabled chain claim admissible ≡ legit)
      ↔ ((enabled ≡ true) × IsLegit chain claim admissible)
unfolding verify_a1
verify_a1-IsLegit false chain claim adm = (λ h. absurd (cc), λ (e, l). absurd (cc))
verify_a1-IsLegit true chain claim adm = (
  λ h. (refl, routed-IsLegit (route_version claim.cc_version) chain claim adm refl h),
  λ (e, l). IsLegit-verify chain claim adm l,
)
