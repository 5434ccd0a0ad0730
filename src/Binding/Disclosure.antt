-- ===== src/Binding/Disclosure.antt =====
-- Selective disclosure: every leaf of a receipt opens against its root.
use ugk.Base.{
  ℕ, suc, String, ◌≡◌, refl, ap, ◌∙◌, subst, true, some, List, [], ◌∷◌, length, arith, nat_eq,
  Option-cases, Bool-cases, inl, inr, ◌||◌,
}
use ugk.Crypto.{Hash}
use ugk.Binding.Merkle.{
  Leaf, Proof, item, sort_leaves, insert_leaf, has_tag, index_of_tag, leaf_encoding, encode_leaves,
  merkle_root, proof_path, receipt_root, verify_inclusion_proof, compute_h_r, build_inclusion_proof,
}
use ugk.Binding.Inclusion.{root_opens}

has_tag-insert :
    (tag : ℕ) (l : Leaf) (ls : List Leaf)
    → has_tag tag (insert_leaf l ls) ≡ (nat_eq l.0 tag || has_tag tag ls)
unfolding has_tag insert_leaf
has_tag-insert tag l [] = refl
has_tag-insert tag l (m ∷ ms) = ground (arith, has_tag-insert tag l ms)

has_tag_cons :
    (tag : ℕ) (l : Leaf) (ls ms : List Leaf)
    → has_tag tag ls ≡ has_tag tag ms
    → (nat_eq l.0 tag || has_tag tag ls) ≡ has_tag tag (l ∷ ms)
unfolding has_tag
has_tag_cons tag l ls ms e = ap (λ b. nat_eq l.0 tag || b) e

has_tag-sort : (tag : ℕ) (ls : List Leaf) → has_tag tag (sort_leaves ls) ≡ has_tag tag ls
unfolding sort_leaves
has_tag-sort tag [] = refl
has_tag-sort tag (l ∷ ls) =
    has_tag-insert tag l (sort_leaves ls)
    ∙ has_tag_cons tag l (sort_leaves ls) ls (has_tag-sort tag ls)

module _ (hash : Hash) (tag_byte : ℕ → String) (length_prefix : String) where
  encode_leaves_cons :
      (l : Leaf) (ls : List Leaf) (es : List String)
      → encode_leaves hash.is_digest tag_byte length_prefix (l ∷ ls) ≡ some es
      → (x : String) × (xs : List String) × (es ≡ x ∷ xs)
        × (encode_leaves hash.is_digest tag_byte length_prefix ls ≡ some xs)
  unfolding encode_leaves
  encode_leaves_cons l ls es e =
      elim (Option-cases (leaf_encoding hash.is_digest tag_byte length_prefix l)) [
        | inl n ↦ ground (arith, n)
        | inr (x, p) ↦
            elim (Option-cases (encode_leaves hash.is_digest tag_byte length_prefix ls)) [
              | inl n ↦ ground (arith, p, n)
              | inr (xs, q) ↦ (x, xs, ground (arith, p, q), q)
            ]
      ]

  index_item :
      (tag : ℕ) (ls : List Leaf) (es : List String)
      → encode_leaves hash.is_digest tag_byte length_prefix ls ≡ some es
      → has_tag tag ls ≡ true
      → (i : ℕ) × (x : String) × (index_of_tag tag ls ≡ some i) × (item i es ≡ some x)
  unfolding has_tag index_of_tag item
  index_item tag [] es e h = cc
  index_item tag (l ∷ ls) es e h =
      let (x, xs, p, q) = encode_leaves_cons l ls es e in
      elim (Bool-cases (nat_eq l.0 tag)) [
        | inl t ↦ (0, x, rw t, rw p)
        | inr f ↦
            let (i, y, a, b) = index_item tag ls xs q (rw f at h) in (suc i, y, rw (f, a), rw p b)
      ]

  compute_h_r-some :
      (leaves : List Leaf) (h_r : String)
      → compute_h_r hash tag_byte length_prefix leaves ≡ some h_r
      → (encoded : List String) × (root : String) × (encode_leaves hash.is_digest tag_byte
            length_prefix
            (sort_leaves leaves)
          ≡ some encoded)
        × (merkle_root hash encoded ≡ some root)
        × (receipt_root hash root ≡ h_r)
  unfolding compute_h_r
  compute_h_r-some leaves h_r c =
      elim (Option-cases
        (encode_leaves hash.is_digest tag_byte length_prefix (sort_leaves leaves))) [
          | inl n ↦ ground (arith, n)
          | inr (encoded, p) ↦ elim (Option-cases (merkle_root hash encoded)) [
            | inl n ↦ ground (arith, p, n)
            | inr (root, q) ↦ (encoded, root, p, q, ground (arith, p, q))
          ]
        ]

  build_inclusion_proof-some :
      (leaves : List Leaf) (tag i : ℕ) (encoded : List String) (target : String) (path : Proof)
      → encode_leaves hash.is_digest tag_byte length_prefix (sort_leaves leaves) ≡ some encoded
      → index_of_tag tag (sort_leaves leaves) ≡ some i
      → item i encoded ≡ some target
      → proof_path hash (length encoded) i encoded ≡ some path
      → build_inclusion_proof hash tag_byte length_prefix leaves tag ≡ some (target, path)
  unfolding build_inclusion_proof
  build_inclusion_proof-some leaves tag i encoded target path e a b p = ground arith

  -- Whenever a receipt has a root, the proof for any of its leaves can be built, and the verifier,
  -- who holds the root alone, accepts it.
  pub verify-build_inclusion_proof :
      (leaves : List Leaf) (tag : ℕ) (h_r : String)
      → compute_h_r hash tag_byte length_prefix leaves ≡ some h_r
      → has_tag tag leaves ≡ true
      → (p : String × Proof) × (build_inclusion_proof hash tag_byte length_prefix leaves tag
          ≡ some p)
        × (verify_inclusion_proof hash h_r p.0 p.1 ≡ true)
  verify-build_inclusion_proof leaves tag h_r c t =
      let (encoded, root, e, m, r) = compute_h_r-some leaves h_r c in
      let (i, target, a, b) =
        index_item tag (sort_leaves leaves) encoded e (has_tag-sort tag leaves ∙ t) in
      let (path, p, v) = root_opens hash encoded i target root b m in
      (
        (target, path),
        build_inclusion_proof-some leaves tag i encoded target path e a b p,
        subst (λ h. verify_inclusion_proof hash h target path ≡ true) r v,
      )
