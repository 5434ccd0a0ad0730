-- ===== src/Store/Seal.antt =====
-- The headline of the epoch seal (`seal_and_prune_epoch`, ugk/storage/store.py).
use ugk.Base.{
  ℕ, ◌+◌, String, Bool, Option, none, some, List, ◌∷◌, ◌++◌, ◌≡◌, refl, sym, ap, ◌∙◌, subst, arith,
  ◌==◌, find, length, keep, leb, Bool-cases, inl, inr,
}
use ugk.Json.{Json}
use ugk.Store.Receipt.{Receipt}
use ugk.Store.Attempt.{Attempt, raised, returned}
use ugk.Store.World.{World}
use ugk.Store.Write.{Store}
use ugk.Store.Growth.{IsConsistent, Ascending}
use ugk.Store.Prepared.{NoEmptyDigest}
use ugk.Store.Epoch.{
  Closing, close_transaction, transaction, PruneResult, PruneFaults, retained, prune_body,
  seal_and_prune_epoch, sealed_at,
}
use ugk.Store.Pruning.{find-split, retained-later}
use ugk.Store.Noted.{sealed-before}
use ugk.Store.Retention.{IsSealed, prune_body-returned}

close_transaction-returned :
    {A : Type 0} (closing : Closing) (before : Store) (x : Attempt A × Store) (a : A)
    → (close_transaction closing before x).0 ≡ returned a
    → (x.0 ≡ returned a)
      × ((close_transaction closing before x).1 ≡ (record x.1 { txn_depth = before.txn_depth }))
unfolding close_transaction
close_transaction-returned closing before (raised e, after) a h = cc
close_transaction-returned closing before (returned b, after) a h =
    elim (Bool-cases closing.release) [
      | inl e ↦ absurd (ground (arith, e, h))
      | inr e ↦ rw e ((ground (arith, e, h)), refl)
    ]

IsConsistent-at_depth :
    (w : World) (a : String) (d : ℕ) (store : Store)
    → IsConsistent w a store
    → IsConsistent w a (record store { txn_depth = d })
IsConsistent-at_depth w a d store s = record { linked = s.linked; ids = s.ids; written = s.written }

IsSealed-at_depth :
    (w : World) (rows : List Receipt) (seal i c : String) (result : PruneResult) (d : ℕ)
    (after : Store)
    → IsSealed w rows seal i c result after
    → IsSealed w rows seal i c result (record after { txn_depth = d })
IsSealed-at_depth w rows seal i c result d after s = record {
  before = s.before;
  boundary = s.boundary;
  later = s.later;
  sealed = s.sealed;
  pruned = s.pruned;
  split = s.split;
  root = s.root;
  kept = s.kept;
  consistent = IsConsistent-at_depth w seal d after s.consistent;
  tip_before = s.tip_before;
  tip_after = s.tip_after;
  noted = s.noted;
  dropped = s.dropped;
  named = s.named;
  through = s.through;
  gone = s.gone;
  left = s.left;
}

transaction_opened :
    (w : World) (faults : PruneFaults) (seal intent description : String) (clock : Json × Json)
    (store : Store) (b : Receipt) (result : PruneResult)
    → (sealed_at w faults seal intent description clock store (some b)).0 ≡ returned result
    → sealed_at w faults seal intent description clock store (some b)
      ≡ transaction faults.closing store (
          prune_body w faults seal intent description b.receipt_id
            (length (keep (λ r. leb r.receipt_id b.receipt_id) store.rows))
            (length (retained b.receipt_id store.rows))
            clock)
unfolding sealed_at
transaction_opened w f seal i d c store b result h = ground arith

found_opened :
    (w : World) (blank : String → Bool) (faults : PruneFaults) (store : Store)
    (seal intent description : String) (clock : Json × Json) (result : PruneResult)
    → (seal_and_prune_epoch w blank faults store seal intent description clock).0 ≡ returned result
    → seal_and_prune_epoch w blank faults store seal intent description clock
      ≡ sealed_at w faults seal intent description clock store
          (find (λ r. r.h_r == seal) store.rows)
unfolding seal_and_prune_epoch
found_opened w blank f store seal i d c result h = ground arith

prune_body_at :
    (w : World) (f : PruneFaults) (a seal i d : String) (clock : Json × Json) (n k : ℕ)
    (store : Store) (before later : List Receipt) (b : Receipt) (result : PruneResult)
    → NoEmptyDigest w.hash
    → IsConsistent w a store
    → store.rows ≡ before ++ b ∷ later
    → b.h_r ≡ seal
    → n ≡ length before + 1
    → k ≡ length later
    → (prune_body w f seal i d b.receipt_id n k clock store).0 ≡ returned result
    → IsSealed w store.rows seal i d result (prune_body w f seal i d b.receipt_id n k clock store).1
prune_body_at w f a seal i d (now, next) n k store before later b result ne s e root en ek =
    subst
      (λ z.
        (prune_body w f z i d b.receipt_id n k (now, next) store).0 ≡ returned result
        → IsSealed w store.rows z i d result
            (prune_body w f z i d b.receipt_id n k (now, next) store).1)
      root (prune_body-returned w f a i d n k now next store before later b result ne s e en ek)

sealed_at-returned :
    (w : World) (faults : PruneFaults) (a seal intent description : String) (clock : Json × Json)
    (store : Store) (o : Option Receipt) (result : PruneResult)
    → NoEmptyDigest w.hash
    → IsConsistent w a store
    → find (λ r. r.h_r == seal) store.rows ≡ o
    → (sealed_at w faults seal intent description clock store o).0 ≡ returned result
    → IsSealed w store.rows seal intent description result
        (sealed_at w faults seal intent description clock store o).1
unfolding sealed_at transaction
sealed_at-returned w f a seal i d c store none result ne s e h = cc
sealed_at-returned w f a seal i d (now, next) store (some b) result ne s e h =
    let (before, later, split, root) = find-split seal store.rows b e in
    let n = length (keep (λ r. leb r.receipt_id b.receipt_id) store.rows) in
    let k = length (retained b.receipt_id store.rows) in
    let ids = subst (λ rows. Ascending 0 rows store.next_id) split s.ids in
    let en =
      ap (λ rows. length (keep (λ r. leb r.receipt_id b.receipt_id) rows)) split
      ∙ sealed-before 0 store.next_id before later b ids in
    let ek =
      ap (λ rows. length (retained b.receipt_id rows)) split
      ∙ ap length (retained-later 0 store.next_id before later b ids) in
    let t = transaction_opened w f seal i d (now, next) store b result h in
    let store' : Store = record store { txn_depth = store.txn_depth + 1 } in
    let (h', m) =
      close_transaction-returned f.closing store
        (prune_body w f seal i d b.receipt_id n k (now, next) store') result
        (ap (λ (x : Attempt PruneResult × Store). x.0) (sym t) ∙ h) in
    subst (λ (x : Attempt PruneResult × Store). IsSealed w store.rows seal i d result x.1) (sym t)
      (subst (IsSealed w store.rows seal i d result) (sym m) (
        IsSealed-at_depth w store.rows seal i d result store.txn_depth _ (
          prune_body_at w f a seal i d (now, next) n k store' before later b result ne
            (IsConsistent-at_depth w a (store.txn_depth + 1) store s) split root en ek h')))

-- A seal of a consistent store that returns has dropped the rows up to the sealed one and no other,
-- appended its two receipts, which name the sealed row and count the rows that are dropped, and left a
-- store that is consistent from the seal on; it reports the tip in memory before and after the
-- deletion, and the numbers of rows that are dropped and left.
pub seal_and_prune_epoch-IsSealed :
    (w : World) (blank : String → Bool) (faults : PruneFaults) (a : String) (store : Store)
    (seal intent description : String) (clock : Json × Json) (result : PruneResult)
    → NoEmptyDigest w.hash
    → IsConsistent w a store
    → (seal_and_prune_epoch w blank faults store seal intent description clock).0 ≡ returned result
    → IsSealed w store.rows seal intent description result
        (seal_and_prune_epoch w blank faults store seal intent description clock).1
seal_and_prune_epoch-IsSealed w blank f a store seal i d c result ne s h =
    let t = found_opened w blank f store seal i d c result h in
    subst (λ (x : Attempt PruneResult × Store). IsSealed w store.rows seal i d result x.1) (sym t)
      (sealed_at-returned w f a seal i d c store (find (λ r. r.h_r == seal) store.rows) result ne s
        refl (ap (λ (x : Attempt PruneResult × Store). x.0) (sym t) ∙ h))
