-- ===== src/Authority/Capabilities.antt =====
-- Capability attenuation along an authority path (ugk/authority/capabilities.py).
use ugk.Base.{ℕ, String, Bool, Option, List, [], ◌∷◌, not, if◌then◌else◌}
use ugk.Base.Names.{subset}
use ugk.Errors.{ErrorCode, Check, ok, refused, capability_escalation}
use ugk.Crypto.{Ed25519}
use ugk.Authority.Edge.{AuthorityEdge, UnsignedEdge, verify_canonical_path}

-- `(effective_set, None)` or `(None, code)`.
pub data Effective : Type 0 where
  effective : List String → Effective
  escalation : ErrorCode → Effective

unfoldable pub attenuates : List String → List String → Bool
attenuates parent_set child_set = subset child_set parent_set

unfoldable pub effective_from : List String → List AuthorityEdge → Effective
effective_from held [] = effective held
effective_from held (edge ∷ path) =
    let rest = effective_from edge.capability_set path in
    if not (subset edge.capability_set held) then escalation capability_escalation else rest

-- `vocabulary` is `CAPABILITY_VOCABULARY`, what the Governor holds.
unfoldable pub compute_effective_capabilities : List String → List AuthorityEdge → Effective
unfolding effective_from
compute_effective_capabilities vocabulary path = effective_from vocabulary path

checked : Check → Effective → Effective
checked ok e = e
checked (refused err) e = escalation err

unfoldable pub verify_authority_chain_with_capabilities :
    Ed25519
    → (UnsignedEdge → String)
    → List String
    → List AuthorityEdge
    → String
    → Option ℕ
    → Effective
unfolding checked
verify_authority_chain_with_capabilities ed25519 canonical_json vocabulary path key now =
    checked (verify_canonical_path ed25519 canonical_json path key now)
      (compute_effective_capabilities vocabulary path)
