-- ===== src/Binding/Canon.antt =====
-- Canonical forms and the per-commitment digests (ugk/storage/binding_m2.py). The digests are
-- texts, so the `.hex()` of the code is not written.
use ugk.Base.{String, [], ◌∷◌}
use ugk.Json.{Json, text, obj, Fields, end, field}
use ugk.Crypto.{Hash}

-- The context that a receipt's admissibility commitment is taken of.
pub record Context : Type 0 where
  pub authority_chain : Json
  pub policy_id : String
  pub capabilities : Json
  pub warrant_basis : Json
  pub parent_h_r : String
  pub freshness : Json

module _ (hash : Hash) where
  unfoldable pub c_s : String → Fields → String
  c_s op_name inputs =
      hash.canonical_json (obj (field "op" (text op_name) (field "inputs" (obj inputs) end)))

  unfoldable pub c_c : Context → String
  c_c c =
      let g_c_root = hash.sha256 (hash.canonical_json c.authority_chain ∷ []) in
      hash.canonical_json (
        obj (
          field "G_c_root" (text g_c_root) (
            field "policy_id" (text c.policy_id) (
              field "capabilities" c.capabilities (
                field "warrant_basis" c.warrant_basis
                  (field "parent" (text c.parent_h_r) (field "freshness" c.freshness end)))))))

  unfoldable pub c_m : String → String → String → Json → String
  c_m intent intent_ref legend_hash semantic_lineage = hash.canonical_json (
      obj (
        field "intent" (text intent) (
          field "intent_ref" (text intent_ref) (
            field "legend_hash" (text legend_hash)
              (field "semantic_lineage" semantic_lineage end)))))

  unfoldable pub c_j : String → String → String → String → String
  c_j phase_code mosaic_root session_id authority_key =
      let id_phi = hash.sha256 (
        "UGK-PHI-v1"
        ∷ hash.canonical_json (
            obj (
              field "phase_code" (text phase_code) (
                field "mosaic_root" (text mosaic_root) (field "session_id" (text session_id) end))))
        ∷ []) in
      hash.canonical_json
        (obj (field "phi" (text id_phi) (field "authority_key" (text authority_key) end)))

  unfoldable pub commit_s : String → Fields → String
  commit_s op_name inputs = hash.sha256 ("UGK-CIS-c_s-v1" ∷ "c_s.v1" ∷ c_s op_name inputs ∷ [])

  unfoldable pub commit_c : Context → String
  commit_c c = hash.sha256 ("UGK-CIS-c_c-v1" ∷ "c_c.v1" ∷ c_c c ∷ [])

  unfoldable pub commit_m : String → String → String → Json → String → String
  commit_m intent intent_ref legend_hash semantic_lineage semantic_regime_id = hash.sha256 (
      "UGK-CIS-c_m-v1"
      ∷ "c_m.v1+sigma_0"
      ∷ c_m intent intent_ref legend_hash semantic_lineage
      ∷ semantic_regime_id
      ∷ [])

  unfoldable pub commit_j : String → String → String → String → String
  commit_j phase_code mosaic_root session_id authority_key =
      hash.sha256
        ("UGK-CIS-c_j-v1" ∷ "c_j.v1" ∷ c_j phase_code mosaic_root session_id authority_key ∷ [])

  unfoldable pub commit_id_p : String → String
  commit_id_p policy_id = hash.sha256 ("UGK-id_P-v1" ∷ policy_id ∷ [])

  unfoldable pub commit_id_sigma : String → String
  commit_id_sigma semantic_regime_id = hash.sha256 ("UGK-id_Sigma-v1" ∷ semantic_regime_id ∷ [])

  unfoldable pub commit_id_phi : String → String
  commit_id_phi phase_code = hash.sha256 ("UGK-id_Phi-v1" ∷ phase_code ∷ [])
