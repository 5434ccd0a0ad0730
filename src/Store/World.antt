-- ===== src/Store/World.antt =====
-- What a write reads besides the store (ugk/storage/store.py): the registries of authorities and
-- policies, and the lineage edge to the receipt before (ugk/lineage.py).
use ugk.Base.{ℕ, String, Bool, Option, none, some, List, [], ◌∷◌, ◌==◌, if◌then◌else◌}
use ugk.Json.{Json, text, int, arr, obj, Items, nil, cons, field, end}
use ugk.Crypto.{Hash}
use ugk.Authority.Edge.{AuthorityEdge, governor_authority}
use ugk.Authority.Graph.{AuthorityGraph, add_edge, has_subject, Walk, found, canonical_path}
use ugk.Authority.Capabilities.{Effective, effective, escalation, compute_effective_capabilities}
use ugk.Fga.Terminal.{texts}
use ugk.Store.Attempt.{Attempt, raised, returned, value_error}

-- `sorted` and `dumps` are Python's `sorted` and `json.dumps` with sorted keys, and `hexdigest` the
-- test of 64 characters that `int(v, 16)` reads. The rest are the values of the registries and the
-- constants of ugk/invariants.py.
pub record World : Type 0 where
  pub hash : Hash
  pub dumps : Json → String
  pub sorted : List String → List String
  pub hexdigest : String → Bool
  pub tag_byte : ℕ → String
  pub length_prefix : String
  pub freshness : Json
  pub phase_code : String
  pub mosaic_root : String
  pub sigma : String
  pub phi : String
  pub policy_id : String → String
  pub authority_key : String → String
  pub graph : AuthorityGraph
  pub default_edge : String → AuthorityEdge
  pub vocabulary : List String
  pub id_c_s : String
  pub id_c_c : String
  pub id_c_m : String
  pub id_c_j : String
  pub schema_hash : String
  pub codex_hash : String

-- `_ensure_default_edge_for`
unfoldable pub ensured : World → String → AuthorityGraph
ensured w name =
    if has_subject w.graph name then w.graph else add_edge w.graph (w.default_edge name)

path_of : Walk → Attempt (List AuthorityEdge)
path_of (found path) = returned path
path_of _ = raised (value_error "no canonical path")

unfoldable pub canonical_path_for : World → String → Attempt (List AuthorityEdge)
unfolding ensured path_of
canonical_path_for w name =
    if name == governor_authority
    then returned []
    else path_of (canonical_path (ensured w name) name)

unfoldable pub edge_dicts : List AuthorityEdge → Items
unfolding texts
edge_dicts [] = nil
edge_dicts (e ∷ es) =
    cons
      (obj (
        field "issuer" (text e.issuer) (
          field "subject" (text e.subject) (
            field "capability_set" (arr (texts e.capability_set)) (
              field "edge_time" (int e.edge_time) (
                field "valid_until" (int e.valid_until) (
                  field "issuer_key_id" (text e.issuer_key_id)
                    (field "signature" (text e.signature) end))))))))
      (edge_dicts es)

capabilities_of : World → Effective → Attempt Json
unfolding texts
capabilities_of w (effective caps) = returned (arr (texts (w.sorted caps)))
capabilities_of w (escalation err) = raised (value_error "capability escalation in G_c path")

unfoldable pub effective_capabilities : World → List AuthorityEdge → Attempt Json
unfolding capabilities_of
effective_capabilities w path = capabilities_of w (compute_effective_capabilities w.vocabulary path)

-- `lineage_as_dicts(build_lineage(prior_h_m, prior_intent_ref))`
unfoldable pub lineage : Option String → Option String → Json
lineage none r = arr nil
lineage (some h_m) r = arr (
    cons
      (obj (
        field "parent_h_m" (text h_m) (
          field "parent_intent_ref" (text (elim r [ none ↦ "" | some ref ↦ ref ]))
            (field "edge_position" (int 0) end))))
      nil)
