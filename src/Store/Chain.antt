-- ===== src/Store/Chain.antt =====
-- Verification of the stored chain (`verify_stream_hash`, `verify_receipt_bodies`, `verify_chain`,
-- `_verify_segment`, `verify_from_seal`, `last_valid_frontier`, ugk/storage/store.py).
use ugk.Base.{
  ℕ, String, Bool, true, false, Option, none, some, List, [], ◌∷◌, ◌==◌, not, ◌&&◌, ◌||◌,
  if◌then◌else◌,
}
use ugk.Crypto.{Hash}
use ugk.Binding.Canon.{commit_s}
use ugk.Store.Receipt.{Receipt, no_reconciliation}
use ugk.Store.Body.{compute_h_body}

-- `GENESIS`, the parent of the first receipt.
abbrev pub genesis : String
genesis = "0000000000000000000000000000000000000000000000000000000000000000"

-- The loop that every linkage check runs.
unfoldable pub verify_segment : List Receipt → String → Bool
verify_segment [] prior = true
verify_segment (r ∷ rs) prior =
    let rest = verify_segment rs r.h_r in
    if r.h_r == "" || not (r.parent_h_r == prior) then false else rest

-- The receipts behind the first one whose `h_r` is the checkpoint, if there is one.
unfoldable pub after_checkpoint : String → List Receipt → Option (List Receipt)
after_checkpoint checkpoint [] = none
after_checkpoint checkpoint (r ∷ rs) =
    let rest = after_checkpoint checkpoint rs in if r.h_r == checkpoint then some rs else rest

unfoldable pub verify_stream_hash : List Receipt → Option String → Bool
unfolding verify_segment after_checkpoint
verify_stream_hash [] from_checkpoint = true
verify_stream_hash (r ∷ rs) none = verify_segment (r ∷ rs) genesis
verify_stream_hash (r ∷ rs) (some checkpoint) = elim (after_checkpoint checkpoint (r ∷ rs)) [
  | none ↦ false
  | some later ↦ verify_segment later checkpoint
]

-- The recomputed commitment: every column is handed over but the two of the reconciliation grade.
unfoldable pub recompute_body : Hash → Receipt → String
recompute_body hash r = compute_h_body hash (record r.body { reconciliation = no_reconciliation })

-- One round of the loop of `verify_receipt_bodies`.
unfoldable pub body_verifies : Hash → Receipt → Bool
unfolding recompute_body
body_verifies hash r =
    if not (r.h_s == "") && not (commit_s hash r.op r.parameters == r.h_s)
    then false
    else if r.h_body == ""
    then false
    else recompute_body hash r == r.h_body

unfoldable pub bodies_verify : Hash → List Receipt → Bool
unfolding body_verifies
bodies_verify hash [] = true
bodies_verify hash (r ∷ rs) =
    let rest = bodies_verify hash rs in if body_verifies hash r then rest else false

unfoldable pub verify_receipt_bodies : Hash → List Receipt → Option String → Bool
unfolding bodies_verify after_checkpoint
verify_receipt_bodies hash [] from_checkpoint = true
verify_receipt_bodies hash (r ∷ rs) none = bodies_verify hash (r ∷ rs)
verify_receipt_bodies hash (r ∷ rs) (some checkpoint) =
    elim (after_checkpoint checkpoint (r ∷ rs)) [
      | none ↦ false
      | some later ↦ bodies_verify hash later
    ]

-- The level that `verify_chain` reports: `LINKAGE` or `BODY`, with or without corruption.
pub data Verification : Type 0 where
  linkage_broken body_tampered body_established : Verification

unfoldable pub verify_chain : Hash → List Receipt → Option String → Verification
unfolding verify_stream_hash verify_receipt_bodies
verify_chain hash rows from_checkpoint =
    if not (verify_stream_hash rows from_checkpoint)
    then linkage_broken
    else if not (verify_receipt_bodies hash rows from_checkpoint)
    then body_tampered
    else body_established

unfoldable pub verify_from_seal : List Receipt → String → Bool
unfolding verify_segment
verify_from_seal rows seal_hash = verify_segment rows seal_hash

unfoldable pub frontier_from : Option ℕ → List Receipt → String → Option ℕ
frontier_from last_valid [] prior = none
frontier_from last_valid (r ∷ rs) prior =
    let rest = frontier_from (some r.receipt_id) rs r.h_r in
    if r.h_r == "" || not (r.parent_h_r == prior) then last_valid else rest

unfoldable pub last_valid_frontier : List Receipt → Option ℕ
unfolding frontier_from
last_valid_frontier rows = frontier_from none rows genesis

-- `stream_hash`: the tip that the rows show.
unfoldable pub stream_hash_from : String → List Receipt → String
stream_hash_from tip [] = tip
stream_hash_from tip (r ∷ rs) = stream_hash_from (if r.h_r == "" then genesis else r.h_r) rs

unfoldable pub stream_hash : List Receipt → String
unfolding stream_hash_from
stream_hash rows = stream_hash_from genesis rows
