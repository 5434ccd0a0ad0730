-- ===== src/Authority/Tests.antt =====
-- Concrete authorities (ugk/authority/), on which the theorems about them are applied.
use ugk.Base.{
  ℕ, String, Bool, true, false, Option, none, some, List, [], ◌∷◌, ◌++◌, ◌≡◌, ◌≢◌, ◌↔◌, refl, not,
  ◌&&◌, reverse, ◌==◌, any,
}
use ugk.Base.Names.{elem, subset}
use ugk.Crypto.{Ed25519}
use ugk.Authority.Edge.{UnsignedEdge, AuthorityEdge, verify_canonical_path, governor_authority}
use ugk.Authority.Graph.{AuthorityGraph, canonical_path, found, out_of_fuel}
use ugk.Authority.Climb.{Climbs, canonical_path_total, canonical_path-found}
use ugk.Authority.Capabilities.{compute_effective_capabilities}
use ugk.Authority.Attenuation.{
  Attenuated, held_at_end, compute_effective_capabilities-effective,
  compute_effective_capabilities-subset,
}
use ugk.Authority.Chain.{IsChain, verify_canonical_path-IsChain}
use ugk.Authority.A1.{EffectClaim, route_version, verify_a1, reconstruct_auth}
use ugk.Authority.CutSet.{IsLegit, verify_a1-IsLegit}

abbrev edge : String → String → List String → AuthorityEdge
edge issuer subject caps = record {
  unsigned = record {
    issuer = issuer;
    subject = subject;
    capability_set = caps;
    edge_time = 0;
    valid_until = 9;
    issuer_key_id = "key";
  };
  signature = "signed";
}

abbrev first_edge : AuthorityEdge
first_edge = edge "Governor" "kernel" ("read" ∷ "write" ∷ [])

abbrev second_edge : AuthorityEdge
second_edge = edge "kernel" "agent" ("read" ∷ [])

abbrev graph : AuthorityGraph
graph = ("agent", second_edge) ∷ ("kernel", first_edge) ∷ []

abbrev looped : AuthorityGraph
looped = ("agent", edge "agent" "agent" []) ∷ []

abbrev path : List AuthorityEdge
path = first_edge ∷ second_edge ∷ []

canonical_path_total_example : canonical_path looped "agent" ≢ out_of_fuel
canonical_path_total_example = canonical_path_total looped "agent"

canonical_path-found_example : Climbs graph "agent" (second_edge ∷ first_edge ∷ [])
unfolding canonical_path ugk.Authority.Graph.walk ugk.Base.Dict.keys elem ugk.Base.Dict.get
canonical_path-found_example = (canonical_path-found graph "agent" path).0 refl

-- A signature is accepted when it is the text "signed".
abbrev ed25519 : Ed25519
ed25519 = record { verify = λ m s k. some (s == "signed") }

abbrev message : UnsignedEdge → String
message e = e.subject

verify_canonical_path-IsChain_example :
    (path ≢ []) × IsChain ed25519 message "key" (some 7) governor_authority path
unfolding verify_canonical_path ugk.Authority.Edge.verify_edges
    ugk.Authority.Edge.verify_authority_edge
verify_canonical_path-IsChain_example =
    (verify_canonical_path-IsChain ed25519 message "key" (some 7) path).0 refl

abbrev vocabulary : List String
vocabulary = "read" ∷ "write" ∷ "govern" ∷ []

compute_effective_capabilities-effective_example :
    Attenuated vocabulary path × (("read" ∷ []) ≡ held_at_end vocabulary path)
unfolding compute_effective_capabilities subset elem
compute_effective_capabilities-effective_example =
    (compute_effective_capabilities-effective vocabulary path ("read" ∷ [])).0 refl

compute_effective_capabilities-subset_example :
    subset ("read" ∷ []) (held_at_end vocabulary (first_edge ∷ [])) ≡ true
unfolding compute_effective_capabilities subset elem
compute_effective_capabilities-subset_example =
    compute_effective_capabilities-subset vocabulary (first_edge ∷ []) (second_edge ∷ [])
      ("read" ∷ []) refl

-- The effect needs both "a" and "b".
abbrev needs_both : List String → Bool
needs_both chain = any (λ x. x == "a") chain && any (λ x. x == "b") chain

abbrev claim : EffectClaim
claim = record { claimed_authorities = "b" ∷ "a" ∷ []; cc_version = "c_c.v2" }

verify_a1-IsLegit_example : (true ≡ true) × IsLegit ("a" ∷ "b" ∷ "c" ∷ []) claim needs_both
unfolding verify_a1 reconstruct_auth route_version elem
verify_a1-IsLegit_example = (verify_a1-IsLegit true ("a" ∷ "b" ∷ "c" ∷ []) claim needs_both).0 refl
