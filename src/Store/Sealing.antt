-- ===== src/Store/Sealing.antt =====
-- What the epoch seal guarantees (`seal_and_prune_epoch`, ugk/storage/store.py).
use ugk.Base.{
  ℕ, ◌+◌, String, false, List, [], ◌∷◌, ◌++◌, ◌≡◌, ◌≢◌, refl, sym, ap, ◌∙◌, subst, arith, ==_refl,
}
use ugk.Store.Receipt.{Receipt}
use ugk.Store.Attempt.{Attempt, raised, returned}
use ugk.Store.World.{World}
use ugk.Store.Write.{WriteCall, Store, Fault, no_fault, at_insert, at_commit}
use ugk.Store.Append.{write, finish, append, prepare, insert, advance}
use ugk.Store.Chain.{verify_from_seal}
use ugk.Store.Linkage.{verify_segment-Linked}
use ugk.Store.Growth.{IsConsistent, Ascending}
use ugk.Store.Epoch.{PruneFaults, retained, prune, after_write}
use ugk.Store.Pruning.{retained-later, stream_hash-Linked, retained-IsConsistent}

append-returned :
    (fault : Fault) (store : Store) (r q : Receipt)
    → (append fault store r).0 ≡ returned q
    → append fault store r ≡ (returned r, advance (insert store r) r)
unfolding append
append-returned no_fault store r q h = refl
append-returned at_insert store r q h = cc
append-returned at_commit store r q h = ground arith

finish-returned :
    (fault : Fault) (store : Store) (result : Attempt Receipt) (q : Receipt)
    → (finish fault store result).0 ≡ returned q
    → (r : Receipt) × (result ≡ returned r)
      × (finish fault store result ≡ (returned r, advance (insert store r) r))
unfolding finish
finish-returned fault store (raised e) q h = cc
finish-returned fault store (returned r) q h = (r, refl, append-returned fault store r q h)

-- A write that returns gives the prepared receipt, as the last row and as the tip.
pub write-returned :
    (w : World) (fault : Fault) (store : Store) (call : WriteCall) (q : Receipt)
    → (write w fault store call).0 ≡ returned q
    → (r : Receipt) × (prepare w store call ≡ returned r)
      × (write w fault store call ≡ (returned r, advance (insert store r) r))
unfolding write
write-returned w fault store call q h = finish-returned fault store (prepare w store call) q h

pub after_write-returned :
    {A : Type 0} (m : Attempt Receipt × Store) (next : Store → Attempt A × Store) (a : A)
    → (after_write m next).0 ≡ returned a
    → (r : Receipt) × (m.0 ≡ returned r) × (after_write m next ≡ next m.1)
unfolding after_write
after_write-returned (raised e, store) next a h = cc
after_write-returned (returned r, store) next a h = (r, refl, refl)

pub occupied : (before later : List Receipt) (b : Receipt) → before ++ b ∷ later ≢ []
occupied [] later b e = cc
occupied (r ∷ rs) later b e = cc

-- The deletion behind a boundary of a consistent store meets both postconditions.
pub prune-meets :
    (w : World) (faults : PruneFaults) (a : String) (n k : ℕ) (store : Store)
    (before later : List Receipt) (b : Receipt)
    → IsConsistent w a store
    → store.rows ≡ before ++ b ∷ later
    → later ≢ []
    → faults.deletion ≡ false
    → prune faults b.h_r b.receipt_id n k store ≡ (
      returned (record {
        seal_hash = b.h_r;
        boundary_receipt_id = b.receipt_id;
        pruned_count = n;
        retained_count = k + 2;
        tip_before_prune = store.prior_h_r;
        tip_after_prune = store.prior_h_r;
      }),
      record store { rows = later },
    )
unfolding prune verify_from_seal
prune-meets w faults a n k store before later b s e m d =
    let ids = subst (λ rows. Ascending 0 rows store.next_id) e s.ids in
    let kept = ap (retained b.receipt_id) e ∙ retained-later 0 store.next_id before later b ids in
    let linked = (retained-IsConsistent w a store before later b s e).linked in
    let tip = stream_hash-Linked b.h_r store.prior_h_r later m linked in
    let whole =
      stream_hash-Linked a store.prior_h_r store.rows (λ z. occupied before later b (sym e ∙ z))
        s.linked in
    rw
      (
        d,
        kept,
        tip,
        whole,
        ==_refl store.prior_h_r,
        verify_segment-Linked b.h_r store.prior_h_r later linked,
      )
      refl
