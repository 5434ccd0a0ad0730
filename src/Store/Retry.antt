-- ===== src/Store/Retry.antt =====
-- A write that is made again after its commit has failed (`UGKReceiptStore.write`,
-- ugk/storage/store.py; `_emit_terminal_durable`, ugk/kernel.py).
use ugk.Base.{String, true, none, List, [], ◌∷◌, ◌++◌, ◌≡◌, ◌≢◌, refl, sym, ap, ◌∙◌, subst}
use mathlib.Core.List.{append_assoc}
use ugk.Store.Receipt.{Receipt}
use ugk.Store.Attempt.{returned}
use ugk.Store.World.{World}
use ugk.Store.Write.{WriteCall, Store, no_fault, at_commit}
use ugk.Store.Append.{write, prepare, finish, append, insert, advance}
use ugk.Store.Chain.{genesis, verify_stream_hash}
use ugk.Store.Linkage.{Linked, verify_stream_hash-Linked}
use ugk.Store.Prepared.{NoEmptyDigest, prepare-IsPrepared}

Linked-last :
    (a tip : String) (xs : List Receipt) (r q : Receipt)
    → Linked a (xs ++ r ∷ q ∷ []) tip
    → q.parent_h_r ≡ r.h_r
Linked-last a tip [] r q (p, n, (l, m, e)) = l
Linked-last a tip (x ∷ xs) r q (p, n, l) = Linked-last x.h_r tip xs r q l

uncommitted :
    (w : World) (store : Store) (call : WriteCall) (r : Receipt)
    → store.txn_depth ≡ 0
    → prepare w store call ≡ returned r
    → (write w at_commit store call).1 ≡ insert store r
unfolding write finish append
uncommitted w store call r d h = rw (h, d) refl

committed :
    (w : World) (store : Store) (call : WriteCall) (r : Receipt)
    → prepare w store call ≡ returned r
    → (write w no_fault store call).1.rows ≡ store.rows ++ r ∷ []
unfolding write finish append advance insert
committed w store call r h = rw h refl

-- Where a write's commit fails outside a transaction and the same write is then made again with
-- success, the chain does not verify, provided that the root of the first is not the tip it was
-- built on.
pub write-retried :
    (w : World) (store : Store) (call : WriteCall) (r q : Receipt)
    → NoEmptyDigest w.hash
    → store.txn_depth ≡ 0
    → prepare w store call ≡ returned r
    → prepare w (insert store r) call ≡ returned q
    → r.h_r ≢ store.prior_h_r
    → verify_stream_hash (write w no_fault (write w at_commit store call).1 call).1.rows none ≢ true
unfolding insert
write-retried w store call r q n d h k m v =
    let first = uncommitted w store call r d h in
    let rows =
      ap (λ (s : Store). (write w no_fault s call).1.rows) first
      ∙ (committed w (insert store r) call q k ∙ append_assoc store.rows (r ∷ []) (q ∷ [])) in
    let linked =
      (verify_stream_hash-Linked (store.rows ++ r ∷ q ∷ [])).0
        (subst (λ (l : List Receipt). verify_stream_hash l none ≡ true) rows v) in
    let parent = (prepare-IsPrepared w (insert store r) call q n k).parent in
    m (sym (Linked-last genesis _ store.rows r q linked) ∙ parent)
