-- ===== src/Authority/Graph.antt =====
-- The single-parent authority tree (`AuthorityGraph`, ugk/authority/authority_graph.py).
use ugk.Base.{
  ℕ, zero, suc, ◌+◌, String, Bool, true, false, Option, none, some, List, [], ◌∷◌, ◌++◌, reverse,
  ◌==◌, length, if◌then◌else◌,
}
use ugk.Base.Names.{elem}
use ugk.Base.Dict
use ugk.Base.Dict.{Dict}
use ugk.Authority.Edge.{AuthorityEdge, governor_authority}

-- `_edges`: the incoming edge of each subject.
abbrev pub AuthorityGraph : Type 0
AuthorityGraph = Dict AuthorityEdge

unfoldable pub add_edge : AuthorityGraph → AuthorityEdge → AuthorityGraph
add_edge edges edge = Dict.put edge.subject edge edges

abbrev is_some : Option AuthorityEdge → Bool
is_some none = false
is_some (some e) = true

unfoldable pub has_subject : AuthorityGraph → String → Bool
has_subject edges subject = is_some (Dict.get subject edges)

-- The path, or the `ValueError` that the walk raises.
pub data Walk : Type 0 where
  found : List AuthorityEdge → Walk
  cycle : String → Walk
  no_incoming_edge : String → Walk
  out_of_fuel : Walk

-- The `while` loop of `canonical_path`, on fuel.
unfoldable pub walk : ℕ → AuthorityGraph → String → List String → List AuthorityEdge → Walk
walk zero edges cursor seen path = out_of_fuel
walk (suc fuel) edges cursor seen path =
    if cursor == governor_authority
    then found (reverse path)
    else if elem cursor seen
    then cycle cursor
    else elim (Dict.get cursor edges) [
      | none ↦ no_incoming_edge cursor
      | some edge ↦ walk fuel edges edge.issuer (cursor ∷ seen) (path ++ edge ∷ [])
    ]

-- Each round but the last adds a key of the dictionary to `seen`, which bounds the rounds.
unfoldable pub canonical_path : AuthorityGraph → String → Walk
canonical_path edges target =
    if target == governor_authority
    then found []
    else walk (length (Dict.keys edges) + 1) edges target [] []
