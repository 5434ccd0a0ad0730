-- ===== src/Store/Growth.antt =====
-- The invariant of a store, and that every write keeps it (`UGKReceiptStore.write`,
-- ugk/storage/store.py).
use ugk.Base.{
  ℕ, ◌+◌, ◌≤◌, String, false, List, [], ◌∷◌, ◌++◌, ◌≡◌, ◌≢◌, refl, arith, All, All-append, nat_eq,
}
use ugk.Binding.Canon.{commit_s}
use ugk.Store.Receipt.{Receipt}
use ugk.Store.Body.{compute_h_body}
use ugk.Store.Attempt.{Attempt, raised, returned}
use ugk.Store.World.{World}
use ugk.Store.Write.{WriteCall, Store, Fault, no_fault, at_insert, at_commit}
use ugk.Store.Append.{prepare, insert, advance, append, finish, write}
use ugk.Store.Linkage.{Linked, Linked-append}
use ugk.Store.Prepared.{NoEmptyDigest, IsPrepared, prepare-IsPrepared}

-- Receipt ids grow, from a lower bound to below the next id.
abbrev pub Ascending : ℕ → List Receipt → ℕ → Type 0
Ascending low [] high = low ≤ high
Ascending low (r ∷ rs) high = (low ≤ r.receipt_id) × Ascending (r.receipt_id + 1) rs high

pub Ascending-append :
    (low mid high : ℕ) (xs ys : List Receipt)
    → Ascending low xs mid
    → Ascending mid ys high
    → Ascending low (xs ++ ys) high
Ascending-append low mid high [] [] p h = omega arith
Ascending-append low mid high [] (y ∷ ys) p (q, h) = (omega arith, h)
Ascending-append low mid high (x ∷ xs) ys (p, l) h =
    (p, Ascending-append (x.receipt_id + 1) mid high xs ys l h)

-- The two digests that a written row has.
abbrev pub IsWritten : World → Receipt → Type 0
IsWritten w r =
    (r.h_s ≡ commit_s w.hash r.op r.parameters) × (r.h_body ≡ compute_h_body w.hash r.body)

-- The rows are linked from `anchor` to the tip in memory, with growing ids and their own digests.
pub record IsConsistent (w : World) (anchor : String) (store : Store) : Type 0 where
  pub linked : Linked anchor store.rows store.prior_h_r
  pub ids : Ascending 0 store.rows store.next_id
  pub written : All (IsWritten w) store.rows

pub advance-IsConsistent :
    (w : World) (anchor : String) (store : Store) (call : WriteCall) (r : Receipt)
    → IsConsistent w anchor store
    → IsPrepared w store call r
    → IsConsistent w anchor (advance (insert store r) r)
unfolding advance insert
advance-IsConsistent w a store call r s p = record {
  linked =
      Linked-append a store.prior_h_r r.h_r store.rows (r ∷ []) s.linked (p.parent, p.root, refl);
  ids =
      Ascending-append 0 store.next_id (store.next_id + 1) store.rows (r ∷ []) s.ids
        (omega (arith, p.id), omega (arith, p.id));
  written = All-append (IsWritten w) store.rows (r ∷ []) s.written ((p.state, p.body_digest), tt);
}

-- The commit that fails is the one that happens: not inside a transaction.
abbrev pub CommitFails : Fault → Store → Type 0
CommitFails fault store = (fault ≡ at_commit) × (store.txn_depth ≡ 0)

append-IsConsistent :
    (w : World) (anchor : String) (fault : Fault) (store : Store) (call : WriteCall) (r : Receipt)
    → (CommitFails fault store → ⊥)
    → IsConsistent w anchor store
    → IsPrepared w store call r
    → IsConsistent w anchor (append fault store r).1
unfolding append
append-IsConsistent w a no_fault store call r n s p = advance-IsConsistent w a store call r s p
append-IsConsistent w a at_insert store call r n s p = s
append-IsConsistent w a at_commit store call r n s p =
    rw (depth_test store.txn_depth (λ e. n (refl, e))) (advance-IsConsistent w a store call r s p)
  where
    depth_test : (d : ℕ) → d ≢ 0 → nat_eq d 0 ≡ false
    depth_test d m = ground arith

finish-IsConsistent :
    (w : World) (anchor : String) (fault : Fault) (store : Store) (call : WriteCall)
    (result : Attempt Receipt)
    → (CommitFails fault store → ⊥)
    → IsConsistent w anchor store
    → ((r : Receipt) → result ≡ returned r → IsPrepared w store call r)
    → IsConsistent w anchor (finish fault store result).1
unfolding finish
finish-IsConsistent w a fault store call (raised e) n s p = s
finish-IsConsistent w a fault store call (returned r) n s p =
    append-IsConsistent w a fault store call r n s (p r refl)

-- A write keeps the store's rows linked to the tip in memory, their ids growing and their digests
-- right, whether it returns or raises, unless the commit behind the insertion fails.
pub write-IsConsistent :
    (w : World) (anchor : String) (fault : Fault) (store : Store) (call : WriteCall)
    → NoEmptyDigest w.hash
    → (CommitFails fault store → ⊥)
    → IsConsistent w anchor store
    → IsConsistent w anchor (write w fault store call).1
unfolding write
write-IsConsistent w a fault store call n c s =
    finish-IsConsistent w a fault store call (prepare w store call) c s
      (λ r e. prepare-IsPrepared w store call r n e)
