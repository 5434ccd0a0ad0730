-- ===== src/Authority/Edge.antt =====
-- Signed authority edges and their verification (ugk/authority/authority_graph.py).
use ugk.Base.{ℕ, String, Bool, Option, none, some, List, [], ◌∷◌, ◌==◌, not, ltb, if◌then◌else◌}
use ugk.Errors.{
  Check, ok, refused, issuer_mismatch, signature_invalid, expired_edge, no_canonical_path,
  ◌then_check◌,
}
use ugk.Crypto.{Ed25519}

-- What the signature covers; epoch counters are naturals.
pub record UnsignedEdge : Type 0 where
  pub issuer : String
  pub subject : String
  pub capability_set : List String
  pub edge_time : ℕ
  pub valid_until : ℕ
  pub issuer_key_id : String

pub record AuthorityEdge : Type 0 where
  pub unsigned : UnsignedEdge
  pub open unsigned use *
  pub signature : String

abbrev pub governor_authority : String
governor_authority = "Governor"

-- `canonical_json` is the encoder of the unsigned payload.
module _ (ed25519 : Ed25519) (canonical_json : UnsignedEdge → String) where
  expiry : AuthorityEdge → Option ℕ → Check
  expiry edge none = ok
  expiry edge (some now) = if ltb edge.valid_until now then refused expired_edge else ok

  signature_check : Option Bool → Check
  signature_check none = refused signature_invalid
  signature_check (some sig_ok) = if not sig_ok then refused signature_invalid else ok

  unfoldable pub verify_authority_edge : AuthorityEdge → String → Option ℕ → Check
  unfolding expiry signature_check
  verify_authority_edge edge governor_pubkey_hex current_time =
      if not (edge.issuer_key_id == governor_pubkey_hex)
      then refused issuer_mismatch
      else signature_check
          (ed25519.verify (canonical_json edge.unsigned) edge.signature governor_pubkey_hex)
        then_check expiry edge current_time

  contiguous : Option AuthorityEdge → AuthorityEdge → Check
  contiguous none edge = ok
  contiguous (some before) edge =
      if not (before.subject == edge.issuer) then refused no_canonical_path else ok

  -- The loop of `verify_canonical_path`, with the edge before the current one.
  unfoldable pub verify_edges :
      Option AuthorityEdge → List AuthorityEdge → String → Option ℕ → Check
  unfolding contiguous
  verify_edges before [] key now = ok
  verify_edges before (edge ∷ path) key now =
      let rest = verify_edges (some edge) path key now in
      verify_authority_edge edge key now then_check contiguous before edge then_check rest

  unfoldable pub verify_canonical_path : List AuthorityEdge → String → Option ℕ → Check
  verify_canonical_path [] key now = refused no_canonical_path
  verify_canonical_path (first ∷ path) key now =
      if not (first.issuer == governor_authority)
      then refused no_canonical_path
      else verify_edges none (first ∷ path) key now
