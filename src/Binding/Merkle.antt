-- ===== src/Binding/Merkle.antt =====
-- The Merkle root of a receipt and its inclusion proofs (ugk/storage/binding_m2.py).
use ugk.Base.{
  ℕ, zero, suc, ◌+◌, ◌-◌, ◌/◌, ◌%◌, String, Bool, false, Option, none, some, List, [], ◌∷◌, length,
  ◌==◌, ◌&&◌, ◌||◌, not, any, leb, nat_eq, if◌then◌else◌,
}
use Prim.Native.String.{◌++◌ as ◌+++◌}
use ugk.Crypto.{Hash}

-- A leaf is its type tag with a commitment.
abbrev pub Leaf : Type 0
Leaf = ℕ × String

-- `nodes[i]`; `none` is an `IndexError`.
unfoldable pub item : ℕ → List String → Option String
item i [] = none
item zero (x ∷ xs) = some x
item (suc i) (x ∷ xs) = item i xs

pub data Side : Type 0 where
  left right : Side

-- Side of the sibling, with the sibling.
abbrev pub Proof : Type 0
Proof = List (String × Side)

unfoldable pub sibling_index : ℕ → ℕ → ℕ
sibling_index idx count =
    let i = if nat_eq (idx % 2) 0 then idx + 1 else idx - 1 in if leb count i then idx else i

unfoldable pub sibling_side : ℕ → Side
sibling_side idx = if nat_eq (idx % 2) 0 then right else left

unfoldable pub insert_leaf : Leaf → List Leaf → List Leaf
insert_leaf l [] = l ∷ []
insert_leaf l (m ∷ ms) = if leb l.0 m.0 then l ∷ m ∷ ms else m ∷ insert_leaf l ms

-- `sorted(leaves, key=tag)`
unfoldable pub sort_leaves : List Leaf → List Leaf
unfolding insert_leaf
sort_leaves [] = []
sort_leaves (l ∷ ls) = insert_leaf l (sort_leaves ls)

unfoldable pub has_tag : ℕ → List Leaf → Bool
has_tag tag leaves = any (λ l. nat_eq l.0 tag) leaves

unfoldable pub has_duplicate : List Leaf → Bool
has_duplicate [] = false
has_duplicate (l ∷ ls) = has_tag l.0 ls || has_duplicate ls

abbrev pub bump : Option ℕ → Option ℕ
bump none = none
bump (some i) = some (suc i)

unfoldable pub index_of_tag : ℕ → List Leaf → Option ℕ
index_of_tag tag [] = none
index_of_tag tag (l ∷ ls) = if nat_eq l.0 tag then some 0 else bump (index_of_tag tag ls)

-- `tag_byte n` is the byte of a type tag, `length_prefix` the four bytes of the length 32 that
-- every digest has.
module _ (is_digest : String → Bool) (tag_byte : ℕ → String) (length_prefix : String) where
  -- `none` is the `ValueError` of a tag out of range or of a digest of another length.
  unfoldable pub leaf_encoding : Leaf → Option String
  leaf_encoding (type_tag, h_i) =
      if leb 1 type_tag && leb type_tag 255 && is_digest h_i
      then some ("UGK-MERKLE-LEAF-v1" +++ tag_byte type_tag +++ length_prefix +++ h_i)
      else none

  unfoldable pub encode_leaves : List Leaf → Option (List String)
  encode_leaves [] = some []
  encode_leaves (l ∷ ls) = elim (leaf_encoding l) [
    | none ↦ none
    | some e ↦ elim (encode_leaves ls) [ none ↦ none | some es ↦ some (e ∷ es) ]
  ]

module _ (hash : Hash) where
  unfoldable pub node : String → String → String
  node l r = hash.sha256 ("UGK-MERKLE-NODE-v1" ∷ l ∷ r ∷ [])

  -- One level of the tree: neighbours are hashed together, and a last node without one is doubled.
  unfoldable pub pair_up : List String → List String
  pair_up [] = []
  pair_up (a ∷ []) = node a a ∷ []
  pair_up (a ∷ b ∷ rest) = node a b ∷ pair_up rest

  -- On fuel; the nodes at least halve, so their number is enough.
  unfoldable pub merkle_level : ℕ → List String → Option String
  merkle_level fuel [] = none
  merkle_level fuel (a ∷ []) = some a
  merkle_level zero (a ∷ b ∷ rest) = none
  merkle_level (suc fuel) (a ∷ b ∷ rest) = merkle_level fuel (pair_up (a ∷ b ∷ rest))

  -- `none` is the `ValueError` of an empty leaf set.
  unfoldable pub merkle_root : List String → Option String
  merkle_root (leaf ∷ []) = some (hash.sha256 ("UGK-MERKLE-SINGLE-v1" ∷ leaf ∷ []))
  merkle_root leaves = merkle_level (length leaves) leaves

  -- The `while` loop of `build_inclusion_proof`, on the same fuel.
  unfoldable pub proof_path : ℕ → ℕ → List String → Option Proof
  proof_path fuel idx [] = some []
  proof_path fuel idx (a ∷ []) = some []
  proof_path zero idx (a ∷ b ∷ rest) = none
  proof_path (suc fuel) idx (a ∷ b ∷ rest) =
      let nodes = a ∷ b ∷ rest in
      elim (item (sibling_index idx (length nodes)) nodes) [
        | none ↦ none
        | some sibling ↦ elim (proof_path fuel (idx / 2) (pair_up nodes)) [
          | none ↦ none
          | some path ↦ some ((sibling, sibling_side idx) ∷ path)
        ]
      ]

  unfoldable pub receipt_root : String → String
  receipt_root root = hash.sha256 ("UGK-RECEIPT-ROOT-v1" ∷ "root.v1" ∷ root ∷ [])

  unfoldable pub fold_side : Side → String → String → String
  fold_side left sibling current = node sibling current
  fold_side right sibling current = node current sibling

  unfoldable pub fold_path : String → Proof → String
  unfolding fold_side
  fold_path current [] = current
  fold_path current ((sibling, side) ∷ path) = fold_path (fold_side side sibling current) path

  unfoldable pub verify_inclusion_proof : String → String → Proof → Bool
  verify_inclusion_proof h_r target [] =
      receipt_root (hash.sha256 ("UGK-MERKLE-SINGLE-v1" ∷ target ∷ [])) == h_r
  verify_inclusion_proof h_r target path = receipt_root (fold_path target path) == h_r

module _ (hash : Hash) (tag_byte : ℕ → String) (length_prefix : String) where
  -- `none` is a `ValueError`: a required leaf is missing, a tag stands twice or is out of range.
  unfoldable pub compute_h_r : List Leaf → Option String
  unfolding has_tag has_duplicate
  compute_h_r leaves =
      let sorted_leaves = sort_leaves leaves in
      if not (has_tag 1 leaves && has_tag 2 leaves && has_tag 3 leaves)
      then none
      else if has_duplicate sorted_leaves
      then none
      else elim (encode_leaves hash.is_digest tag_byte length_prefix sorted_leaves) [
        | none ↦ none
        | some encoded ↦ elim (merkle_root hash encoded) [
          | none ↦ none
          | some root ↦ some (receipt_root hash root)
        ]
      ]

  -- The encoded target with its path; `none` is a `ValueError`.
  unfoldable pub build_inclusion_proof : List Leaf → ℕ → Option (String × Proof)
  unfolding index_of_tag
  build_inclusion_proof leaves target_tag =
      let sorted_leaves = sort_leaves leaves in
      elim (encode_leaves hash.is_digest tag_byte length_prefix sorted_leaves) [
        | none ↦ none
        | some encoded ↦ elim (index_of_tag target_tag sorted_leaves) [
          | none ↦ none
          | some idx ↦ elim (item idx encoded) [
            | none ↦ none
            | some target ↦ elim (proof_path hash (length encoded) idx encoded) [
              | none ↦ none
              | some path ↦ some (target, path)
            ]
          ]
        ]
      ]
