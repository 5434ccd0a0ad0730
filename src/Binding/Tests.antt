-- ===== src/Binding/Tests.antt =====
-- A concrete receipt root (ugk/storage/binding_m2.py), on which the theorem about it is applied.
use ugk.Base.{ℕ, String, true, some, List, [], ◌∷◌, ◌≡◌, refl, ◌==◌, if◌then◌else◌, nat_eq}
use ugk.Crypto.{Hash}
use ugk.Binding.Merkle.{
  Leaf, Proof, has_tag, compute_h_r, build_inclusion_proof, verify_inclusion_proof,
}
use ugk.Binding.Disclosure.{verify-build_inclusion_proof}

-- A digest that keeps the last two parts apart from the others.
abbrev digest : List String → String
digest [] = "0"
digest (t ∷ []) = "1"
digest (t ∷ x ∷ []) = x
digest (t ∷ x ∷ y ∷ r) = if x == y then "same" else y

abbrev hash : Hash
hash = record {
  sha256 = digest;
  canonical_json = λ v. "{}";
  storage_json = λ v. "{}";
  is_digest = λ h. true;
}

abbrev byte : ℕ → String
byte n = if nat_eq n 1 then "1" else if nat_eq n 2 then "2" else "3"

abbrev leaves : List Leaf
leaves = (2, "cc") ∷ (1, "ss") ∷ (3, "mm") ∷ []

verify-build_inclusion_proof_example :
    (p : String × Proof) × (build_inclusion_proof hash byte "20" leaves 2 ≡ some p)
    × (verify_inclusion_proof hash "same" p.0 p.1 ≡ true)
unfolding compute_h_r has_tag ugk.Binding.Merkle.sort_leaves ugk.Binding.Merkle.encode_leaves
    ugk.Binding.Merkle.leaf_encoding ugk.Binding.Merkle.merkle_root ugk.Binding.Merkle.merkle_level
    ugk.Binding.Merkle.pair_up ugk.Binding.Merkle.receipt_root ugk.Binding.Merkle.node
verify-build_inclusion_proof_example =
    verify-build_inclusion_proof hash byte "20" leaves 2 "same" refl refl
