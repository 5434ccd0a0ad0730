-- ===== src/Authority/Chain.antt =====
-- A path passes `verify_canonical_path` exactly when it is a chain of valid edges from the Governor.
use ugk.Base.{
  ℕ, String, ◌≡◌, ◌≢◌, refl, ◌↔◌, true, Option, none, some, List, [], ◌∷◌, arith, eq_iff, ◌≤◌,
}
use ugk.Errors.{ok}
use ugk.Crypto.{Ed25519}
use ugk.Authority.Edge.{
  AuthorityEdge, UnsignedEdge, governor_authority, verify_authority_edge, verify_edges,
  verify_canonical_path,
}

module _ (ed25519 : Ed25519) (canonical_json : UnsignedEdge → String) (key : String)
    (now : Option ℕ) where
  -- The edge was signed by the Governor's key over its payload, and has not expired.
  abbrev pub InTime : AuthorityEdge → Option ℕ → Type 0
  InTime e none = Unit
  InTime e (some t) = t ≤ e.valid_until

  abbrev pub IsValidEdge : AuthorityEdge → Type 0
  IsValidEdge e =
      (e.issuer_key_id ≡ key)
      × (ed25519.verify (canonical_json e.unsigned) e.signature key ≡ some true)
      × InTime e now

  -- The edges follow one another, from the authority `name` on, and each is valid.
  abbrev pub IsChain : String → List AuthorityEdge → Type 0
  IsChain name [] = Unit
  IsChain name (e ∷ es) = (e.issuer ≡ name) × IsValidEdge e × IsChain e.subject es

  verify_authority_edge_lem :
      (e : AuthorityEdge)
      → (verify_authority_edge ed25519 canonical_json e key now ≡ ok) ↔ IsValidEdge e
  unfolding verify_authority_edge
  verify_authority_edge_lem e = ground (arith, eq_iff e.issuer_key_id key)

  verify_edges-IsChain :
      (before : AuthorityEdge) (path : List AuthorityEdge)
      → verify_edges ed25519 canonical_json (some before) path key now ≡ ok
      → IsChain before.subject path
  unfolding verify_edges
  verify_edges-IsChain b [] h = tt
  verify_edges-IsChain b (e ∷ es) h =
      ground (
        arith,
        (verify_authority_edge_lem e).0,
        verify_edges-IsChain e es,
        eq_iff b.subject e.issuer,
      )

  IsChain-verify_edges :
      (before : AuthorityEdge) (path : List AuthorityEdge)
      → IsChain before.subject path
      → verify_edges ed25519 canonical_json (some before) path key now ≡ ok
  unfolding verify_edges
  IsChain-verify_edges b [] h = refl
  IsChain-verify_edges b (e ∷ es) h = ground (
    arith,
    (verify_authority_edge_lem e).1 h.1,
    IsChain-verify_edges e es h.2,
    eq_iff b.subject e.issuer,
  )

  -- A path is accepted exactly when it is not empty, its first edge is issued by the Governor, each
  -- later edge by the subject before it, and every edge carries the Governor's key, a signature
  -- that verifies under it, and (when a time is given) an expiry that is not past.
  pub verify_canonical_path-IsChain :
      (path : List AuthorityEdge)
      → (verify_canonical_path ed25519 canonical_json path key now ≡ ok)
        ↔ ((path ≢ []) × IsChain governor_authority path)
  unfolding verify_canonical_path verify_edges
  verify_canonical_path-IsChain [] = ((λ h. cc), (λ h. absurd (h.0 refl)))
  verify_canonical_path-IsChain (e ∷ es) = (
    (λ h. (
      (λ p. cc),
      ground (
        arith,
        (verify_authority_edge_lem e).0,
        verify_edges-IsChain e es,
        eq_iff e.issuer governor_authority,
      ),
    )),
    (λ h.
        let c : IsChain governor_authority (e ∷ es) = h.1 in
        ground (
          arith,
          (verify_authority_edge_lem e).1 c.1,
          IsChain-verify_edges e es c.2,
          eq_iff e.issuer governor_authority,
        )),
  )
