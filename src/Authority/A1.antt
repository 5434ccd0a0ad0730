-- ===== src/Authority/A1.antt =====
-- The set-valued authority verifier (ugk/authority/a1_verifier.py).
use ugk.Base.{String, Bool, List, [], ◌∷◌, ◌==◌, not, any, keep, if◌then◌else◌}
use ugk.Base.Names.{elem}

pub data Refusal : Type 0 where
  unknown_canon_version noncutset_claim version_mismatch omitted_authority : Refusal

-- `'legit'`, `"a1-disabled"`, or `GateRefusal(reason=…)`.
pub data Verdict : Type 0 where
  legit a1_disabled : Verdict
  refusal : Refusal → Verdict

pub record EffectClaim : Type 0 where
  pub claimed_authorities : List String
  pub cc_version : String

pub data Route : Type 0 where
  v1_rule v2_rule fail_closed : Route

unfoldable pub route_version : String → Route
route_version cc_version =
    if cc_version == "c_c.v1"
    then v1_rule
    else if cc_version == "c_c.v2"
    then v2_rule
    else fail_closed

-- `[x for x in authority_chain if x != a]`
abbrev pub without : String → List String → List String
without a = keep (λ x. not (x == a))

-- The loop over `remaining`, a tail of the chain.
unfoldable pub cut_sets : (List String → Bool) → List String → List String → List String
cut_sets admissible chain [] = []
cut_sets admissible chain (a ∷ rest) =
    let auth = cut_sets admissible chain rest in
    if not (admissible (without a chain)) then a ∷ auth else auth

-- `admissible` is `admissibility_fn`: is the effect admitted under this chain?
unfoldable pub reconstruct_auth : List String → (List String → Bool) → List String
unfolding cut_sets
reconstruct_auth authority_chain admissible = cut_sets admissible authority_chain authority_chain

unfoldable pub single_rule : List String → List String → Verdict
single_rule (a ∷ []) actual = if not (elem a actual) then refusal noncutset_claim else legit
single_rule chain actual = refusal version_mismatch

unfoldable pub set_rule : List String → List String → Verdict
set_rule actual claimed =
    if any (λ a. not (elem a claimed)) actual
    then refusal omitted_authority
    else if any (λ a. not (elem a actual)) claimed
    then refusal noncutset_claim
    else legit

unfoldable pub routed : Route → List String → List String → List String → Verdict
unfolding single_rule set_rule
routed fail_closed chain actual claimed = refusal unknown_canon_version
routed v1_rule chain actual claimed = single_rule chain actual
routed v2_rule chain actual claimed = set_rule actual claimed

unfoldable pub verify_a1 : Bool → List String → EffectClaim → (List String → Bool) → Verdict
unfolding routed
verify_a1 a1_enabled authority_chain claim admissible =
    if not a1_enabled
    then a1_disabled
    else routed (route_version claim.cc_version) authority_chain
        (reconstruct_auth authority_chain admissible) claim.claimed_authorities
