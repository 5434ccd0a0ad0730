-- ===== src/Binding/Inclusion.antt =====
-- The proofs that `build_inclusion_proof` makes are accepted.
use ugk.Base.{
  ℕ, zero, suc, ◌/◌, ◌≤◌, String, ◌≡◌, refl, ◌∙◌, true, some, List, [], ◌∷◌, length, arith, ==_refl,
}
use ugk.Crypto.{Hash}
use ugk.Binding.Merkle.{
  Side, Proof, item, pair_up, merkle_level, merkle_root, sibling_index, sibling_side, proof_path,
  receipt_root, fold_side, fold_path, verify_inclusion_proof,
}

half_step : (i : ℕ) → suc (suc i) / 2 ≡ suc (i / 2)
half_step i = omega arith

sibling_index_step :
    (i n : ℕ) → sibling_index (suc (suc i)) (suc (suc n)) ≡ suc (suc (sibling_index i n))
unfolding sibling_index
sibling_index_step i n = ground arith

sibling_side_step : (i : ℕ) → sibling_side (suc (suc i)) ≡ sibling_side i
unfolding sibling_side
sibling_side_step i = ground arith

module _ (hash : Hash) where
  -- Going one level up from an item leads to the item and its sibling, hashed in their order.
  one_level :
      (i : ℕ) (nodes : List String) (x : String)
      → item i nodes ≡ some x
      → (s : String) × (item (sibling_index i (length nodes)) nodes ≡ some s)
        × (item (i / 2) (pair_up hash nodes) ≡ some (fold_side hash (sibling_side i) s x))
  unfolding item pair_up fold_side
  one_level i [] x h = cc
  one_level zero (a ∷ []) x h =
      (a, unfold sibling_index in refl, unfold sibling_side in ground arith)
  one_level (suc i) (a ∷ []) x h = cc
  one_level zero (a ∷ b ∷ r) x h =
      (b, unfold sibling_index in ground arith, unfold sibling_side in ground arith)
  one_level (suc zero) (a ∷ b ∷ r) x h =
      (a, unfold sibling_index in ground arith, unfold sibling_side in ground arith)
  one_level (suc (suc i)) (a ∷ b ∷ r) x h =
      let (s, e, f) = one_level i r x h in
      (s, rw (sibling_index_step i (length r)) e, rw (half_step i, sibling_side_step i) f)

  length-pair_up :
      (a b : String) (r : List String) → length (pair_up hash (a ∷ b ∷ r)) ≤ length (b ∷ r)
  unfolding pair_up
  length-pair_up a b [] = omega arith
  length-pair_up a b (c ∷ []) = omega arith
  length-pair_up a b (c ∷ d ∷ r) = omega (arith, length-pair_up c d r)

  -- What a proof needs: the root, a path, and that the path folds an item to the root.
  abbrev Opens : ℕ → ℕ → List String → String → Type 0
  Opens fuel i nodes x =
      (root : String) × (path : Proof) × (merkle_level hash fuel nodes ≡ some root)
      × (proof_path hash fuel i nodes ≡ some path)
      × (fold_path hash x path ≡ root)

  proof_path_cons :
      (fuel i : ℕ) (a b : String) (r : List String) (s : String) (path : Proof)
      → item (sibling_index i (length (a ∷ b ∷ r))) (a ∷ b ∷ r) ≡ some s
      → proof_path hash fuel (i / 2) (pair_up hash (a ∷ b ∷ r)) ≡ some path
      → proof_path hash (suc fuel) i (a ∷ b ∷ r) ≡ some ((s, sibling_side i) ∷ path)
  unfolding proof_path
  proof_path_cons fuel i a b r s path e p = ground arith

  opens :
      (fuel i : ℕ) (nodes : List String) (x : String)
      → length nodes ≤ fuel
      → item i nodes ≡ some x
      → Opens fuel i nodes x
  unfolding merkle_level proof_path fold_path item
  opens fuel i [] x le h = cc
  opens fuel zero (a ∷ []) x le h = (a, [], refl, refl, cc)
  opens fuel (suc i) (a ∷ []) x le h = cc
  opens zero i (a ∷ b ∷ r) x le h = absurd (omega arith)
  opens (suc fuel) i (a ∷ b ∷ r) x le h =
      let (s, e, f) = one_level i (a ∷ b ∷ r) x h in
      let (root, path, m, p, q) =
        opens fuel (i / 2) (pair_up hash (a ∷ b ∷ r)) (fold_side hash (sibling_side i) s x)
          (omega (arith, length-pair_up a b r)) f in
      (root, (s, sibling_side i) ∷ path, m, proof_path_cons fuel i a b r s path e p, q)

  verify_cons :
      (root x s : String) (side : Side) (path : Proof)
      → fold_path hash x ((s, side) ∷ path) ≡ root
      → verify_inclusion_proof hash (receipt_root hash root) x ((s, side) ∷ path) ≡ true
  unfolding verify_inclusion_proof
  verify_cons root x s side path e = rw e (==_refl (receipt_root hash root))

  pub root_opens :
      (encoded : List String) (i : ℕ) (target root : String)
      → item i encoded ≡ some target
      → merkle_root hash encoded ≡ some root
      → (path : Proof) × (proof_path hash (length encoded) i encoded ≡ some path)
        × (verify_inclusion_proof hash (receipt_root hash root) target path ≡ true)
  unfolding merkle_root item
  root_opens [] i target root h m = cc
  root_opens (a ∷ []) (suc i) target root h m = cc
  root_opens (a ∷ []) zero target root h m = (
    [],
    unfold proof_path in refl,
    unfold verify_inclusion_proof in
        let e : a ≡ target = cc in
        let q : hash.sha256 ("UGK-MERKLE-SINGLE-v1" ∷ a ∷ []) ≡ root = cc in
        rw (← e, q) (==_refl (receipt_root hash root)),
  )
  root_opens (a ∷ b ∷ r) i target root h m =
      let (s, e, f) = one_level i (a ∷ b ∷ r) target h in
      let (root', path, mm, p, q) =
        opens (suc (length r)) (i / 2) (pair_up hash (a ∷ b ∷ r))
          (fold_side hash (sibling_side i) s target) (length-pair_up a b r) f in
      let same : root' ≡ root = unfold merkle_level in cc (mm, m) in
      (
        (s, sibling_side i) ∷ path,
        proof_path_cons (suc (length r)) i a b r s path e p,
        verify_cons root target s (sibling_side i) path (unfold fold_path in q ∙ same),
      )
