-- ===== src/Store/Epoch.antt =====
-- The governed transaction and the epoch seal (`transaction`, `seal_and_prune_epoch`,
-- ugk/storage/store.py; `MutationTransaction`, ugk/integrity/transaction.py).
use ugk.Base.{
  ℕ, ◌+◌, String, Bool, false, Option, none, some, List, ◌==◌, not, ◌||◌, leb, ltb, keep, find,
  length, if◌then◌else◌,
}
use ugk.Json.{Json, null, text, int, Fields, field, end}
use ugk.Store.Receipt.{Receipt}
use ugk.Store.Attempt.{
  Attempt, raised, returned, value_error, runtime_error, database_error, transaction_commit_error,
}
use ugk.Store.World.{World}
use ugk.Store.Write.{WriteCall, Store, Fault}
use ugk.Store.Append.{write}
use ugk.Store.Chain.{verify_segment, verify_from_seal, stream_hash}

-- Where the closing of the savepoint fails: at its release, and at the rollback to it.
pub record Closing : Type 0 where
  pub release : Bool
  pub rollback : Bool

-- A rollback that fails leaves the rows; the snapshot brings the tip back all the same.
unfoldable pub unrolled : Store → Store → Store
unrolled before after = record after {
  prior_h_r = before.prior_h_r;
  prior_h_m = before.prior_h_m;
  prior_intent_ref = before.prior_intent_ref;
  txn_depth = before.txn_depth;
}

-- The rollback to the savepoint brings the rows and the ids back, the snapshot the tip.
unfoldable pub rolled_back : Closing → Store → Store → Store
unfolding unrolled
rolled_back closing before after = if closing.rollback then unrolled before after else before

-- An exception of the body goes on, unless the rollback or the release behind it raises. A release of
-- a clean body that fails is followed by a rollback whose own failure is swallowed.
unfoldable pub close_transaction :
    {A : Type 0} → Closing → Store → Attempt A × Store → Attempt A × Store
unfolding rolled_back
close_transaction closing before (raised e, after) = (
  raised (if closing.rollback || closing.release then database_error else e),
  rolled_back closing before after,
)
close_transaction closing before (returned a, after) =
    if closing.release
    then (raised transaction_commit_error, rolled_back closing before after)
    else (returned a, record after { txn_depth = before.txn_depth })

unfoldable pub transaction :
    {A : Type 0} → Closing → Store → (Store → Attempt A × Store) → Attempt A × Store
unfolding close_transaction
transaction closing store body =
    close_transaction closing store (body (record store { txn_depth = store.txn_depth + 1 }))

pub record PruneResult : Type 0 where
  pub seal_hash : String
  pub boundary_receipt_id : ℕ
  pub pruned_count : ℕ
  pub retained_count : ℕ
  pub tip_before_prune : String
  pub tip_after_prune : String

-- The faults of the two writes, whether the deletion fails, and how the savepoint closes.
pub record PruneFaults : Type 0 where
  pub sealed : Fault
  pub pruned : Fault
  pub deletion : Bool
  pub closing : Closing

-- A write by the storage frame, with every other argument at its default.
unfoldable pub frame_call : String → Fields → String → Json → WriteCall
frame_call op parameters intent now = record {
  op = op;
  authority = "storage-frame";
  parameters = parameters;
  failed = false;
  intent = some intent;
  jurisdiction = "session";
  confidence = "high";
  session_dkn = "";
  law_hash = "";
  legend_hash = "";
  warrant_id = "";
  intent_ref = "";
  commit_terminal_outcome = false;
  terminal_outcome_override = none;
  commit_capability_evidence = false;
  capability_evidence = none;
  effect_columns = none;
  reconciliation_grade = null;
  reconciliation_warrant_snapshot = null;
  continuation = null;
  bridge = null;
  bridge_verifier = none;
  now = now;
}

unfoldable pub sealed_call : String → String → String → ℕ → ℕ → Json → WriteCall
unfolding frame_call
sealed_call seal_hash intent description boundary_id count now =
    frame_call "epoch_sealed"
      (field "intent" (text intent) (
        field "description" (text description) (
          field "seal_hash" (text seal_hash) (
            field "sealed_through_receipt_id" (int boundary_id)
              (field "sealed_count" (int count) end)))))
      intent now

unfoldable pub pruned_call : String → String → ℕ → ℕ → Json → WriteCall
unfolding frame_call
pruned_call seal_hash intent boundary_id count now =
    frame_call "epoch_pruned"
      (field "intent" (text intent) (
        field "seal_hash" (text seal_hash) (
          field "pruned_through_receipt_id" (int boundary_id)
            (field "pruned_count" (int count) end))))
      intent now

-- `DELETE FROM receipts WHERE receipt_id <= ?`
unfoldable pub retained : ℕ → List Receipt → List Receipt
retained boundary_id rows = keep (λ r. ltb boundary_id r.receipt_id) rows

-- The deletion and the two postconditions.
unfoldable pub prune : PruneFaults → String → ℕ → ℕ → ℕ → Store → Attempt PruneResult × Store
unfolding retained
prune faults seal_hash boundary_id pruned kept store =
    let before = stream_hash store.rows in
    let rows = retained boundary_id store.rows in
    let after = stream_hash rows in
    if faults.deletion
    then (raised database_error, store)
    else if not (after == before)
    then (raised (runtime_error "chain tip moved during prune"), record store { rows = rows })
    else if not (verify_from_seal rows seal_hash)
    then (
      raised (runtime_error "retained chain does not verify from seal"),
      record store { rows = rows },
    )
    else (
      returned (record {
        seal_hash = seal_hash;
        boundary_receipt_id = boundary_id;
        pruned_count = pruned;
        retained_count = kept + 2;
        tip_before_prune = before;
        tip_after_prune = after;
      }),
      record store { rows = rows },
    )

-- The next step of a body, unless the write raised.
unfoldable pub after_write :
    {A : Type 0} → Attempt Receipt × Store → (Store → Attempt A × Store) → Attempt A × Store
after_write (raised e, store) next = (raised e, store)
after_write (returned r, store) next = next store

unfoldable pub prune_body :
    World
    → PruneFaults
    → String
    → String
    → String
    → ℕ
    → ℕ
    → ℕ
    → Json × Json
    → Store
    → Attempt PruneResult × Store
unfolding after_write prune
prune_body w faults seal_hash intent description boundary_id pruned kept (now, later) store =
    after_write
      (write w faults.sealed store
        (sealed_call seal_hash intent description boundary_id pruned now))
      (λ store'.
        after_write
          (write w faults.pruned store' (pruned_call seal_hash intent boundary_id pruned later))
          (λ store''. prune faults seal_hash boundary_id pruned kept store''))

unfoldable pub sealed_at :
    World
    → PruneFaults
    → String
    → String
    → String
    → Json × Json
    → Store
    → Option Receipt
    → Attempt PruneResult × Store
unfolding transaction prune_body retained
sealed_at w faults seal_hash intent description clock store none =
    (raised (value_error "seal_hash not found in chain"), store)
sealed_at w faults seal_hash intent description clock store (some boundary) =
    let frontier = retained boundary.receipt_id store.rows in
    let prefix = keep (λ r. leb r.receipt_id boundary.receipt_id) store.rows in
    if not (verify_segment frontier seal_hash)
    then (raised (value_error "frontier does not chain from seal_hash"), store)
    else transaction faults.closing store (
        prune_body w faults seal_hash intent description boundary.receipt_id (length prefix)
          (length frontier) clock)

-- `blank` is the test that nothing is left of a text once `str.strip` is applied.
unfoldable pub seal_and_prune_epoch :
    World
    → (String → Bool)
    → PruneFaults
    → Store
    → String
    → String
    → String
    → Json × Json
    → Attempt PruneResult × Store
unfolding sealed_at
seal_and_prune_epoch w blank faults store seal_hash intent description clock =
    if intent == "" || blank intent
    then (raised (value_error "epoch seal/prune requires explicit intent"), store)
    else sealed_at w faults seal_hash intent description clock store
        (find (λ r. r.h_r == seal_hash) store.rows)
