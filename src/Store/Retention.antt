-- ===== src/Store/Retention.antt =====
-- The store that a successful epoch seal leaves (`seal_and_prune_epoch`, ugk/storage/store.py).
use ugk.Base.{
  ℕ, String, false, List, [], ◌∷◌, ◌++◌, ◌≡◌, ◌≢◌, refl, sym, ap, ◌∙◌, subst, arith, length,
  length-append, ◌+◌,
}
use mathlib.Core.List.{append_assoc}
use ugk.Json.{Json}
use ugk.Store.Receipt.{Receipt}
use ugk.Store.Attempt.{Attempt, raised, returned}
use ugk.Store.World.{World}
use ugk.Store.Write.{WriteCall, Store, Fault}
use ugk.Store.Append.{write, prepare, insert, advance}
use ugk.Store.Growth.{IsConsistent, advance-IsConsistent}
use ugk.Store.Prepared.{NoEmptyDigest, prepare-IsPrepared}
use ugk.Store.Epoch.{
  PruneResult, PruneFaults, prune, after_write, prune_body, sealed_call, pruned_call,
}
use ugk.Store.Pruning.{retained-IsConsistent}
use ugk.Store.Noted.{IsSeal, IsPrune, prepare-IsSeal, prepare-IsPrune}
use ugk.Store.Sealing.{write-returned, after_write-returned, prune-meets}

-- What the seal reports and leaves: the rows behind the sealed one, then its two receipts, linked
-- from the seal to a tip that the deletion did not move. The receipts and the report name the sealed
-- row and count the rows.
pub record IsSealed (w : World) (rows : List Receipt) (seal intent description : String)
    (result : PruneResult) (after : Store) : Type 0 where
  pub before : List Receipt
  pub boundary : Receipt
  pub later : List Receipt
  pub sealed : Receipt
  pub pruned : Receipt
  pub split : rows ≡ before ++ boundary ∷ later
  pub root : boundary.h_r ≡ seal
  pub kept : after.rows ≡ later ++ sealed ∷ pruned ∷ []
  pub consistent : IsConsistent w seal after
  pub tip_before : result.tip_before_prune ≡ after.prior_h_r
  pub tip_after : result.tip_after_prune ≡ after.prior_h_r
  pub noted : IsSeal sealed seal intent description boundary.receipt_id (length before + 1)
  pub dropped : IsPrune pruned seal intent boundary.receipt_id (length before + 1)
  pub named : result.seal_hash ≡ seal
  pub through : result.boundary_receipt_id ≡ boundary.receipt_id
  pub gone : result.pruned_count ≡ length before + 1
  pub left : result.retained_count ≡ length after.rows

write_step :
    (w : World) (fault : Fault) (a : String) (store : Store) (call : WriteCall) (q : Receipt)
    → NoEmptyDigest w.hash
    → IsConsistent w a store
    → (write w fault store call).0 ≡ returned q
    → (r : Receipt) × (prepare w store call ≡ returned r)
      × ((write w fault store call).1 ≡ advance (insert store r) r)
      × IsConsistent w a (advance (insert store r) r)
write_step w fault a store call q n s h =
    let (r, p, e) = write-returned w fault store call q h in
    (
      r,
      p,
      ap (λ (x : Attempt Receipt × Store). x.1) e,
      advance-IsConsistent w a store call r s (prepare-IsPrepared w store call r n p),
    )

grown :
    (before later : List Receipt) (b s p : Receipt)
    → ((before ++ b ∷ later) ++ s ∷ []) ++ p ∷ [] ≡ before ++ b ∷ (later ++ s ∷ p ∷ [])
grown before later b s p =
    append_assoc (before ++ b ∷ later) (s ∷ []) (p ∷ [])
    ∙ append_assoc before (b ∷ later) (s ∷ p ∷ [])

prune_not_deleted :
    (faults : PruneFaults) (seal : String) (id n k : ℕ) (store : Store) (result : PruneResult)
    → (prune faults seal id n k store).0 ≡ returned result
    → faults.deletion ≡ false
unfolding prune
prune_not_deleted f seal id n k store result h = ground arith

occupied_end : (later : List Receipt) (r p : Receipt) → later ++ r ∷ p ∷ [] ≢ []
occupied_end [] r p e = cc
occupied_end (x ∷ xs) r p e = cc

returned_inj : {A : Type 0} {x y : A} → returned x ≡ returned y → x ≡ y
returned_inj {A} {x} e = ap (λ (m : Attempt A). elim m [ returned z ↦ z | raised q ↦ x ]) e

pub prune_body-returned :
    (w : World) (faults : PruneFaults) (a intent description : String) (n k : ℕ) (now next : Json)
    (store : Store) (before later : List Receipt) (b : Receipt) (result : PruneResult)
    → NoEmptyDigest w.hash
    → IsConsistent w a store
    → store.rows ≡ before ++ b ∷ later
    → n ≡ length before + 1
    → k ≡ length later
    → (prune_body w faults b.h_r intent description b.receipt_id n k (now, next) store).0
      ≡ returned result
    → IsSealed w store.rows b.h_r intent description result
        (prune_body w faults b.h_r intent description b.receipt_id n k (now, next) store).1
unfolding prune_body insert advance
prune_body-returned w faults a i d n k now next store before later b result ne s e en ek h =
    let seal = sealed_call b.h_r i d b.receipt_id n now in
    let drop = pruned_call b.h_r i b.receipt_id n next in
    let (q1, w1, e1) = after_write-returned (write w faults.sealed store seal) _ result h in
    let (r1, p1, m1, s1) = write_step w faults.sealed a store seal q1 ne s w1 in
    let store1 = advance (insert store r1) r1 in
    let c1 = e1 ∙ ap after_first m1 in
    let h1 = ap (λ (x : Attempt PruneResult × Store). x.0) (sym c1) ∙ h in
    let (q2, w2, e2) = after_write-returned (write w faults.pruned store1 drop) _ result h1 in
    let (r2, p2, m2, s2) = write_step w faults.pruned a store1 drop q2 ne s1 w2 in
    let store2 = advance (insert store1 r2) r2 in
    let c2 = c1 ∙ (e2 ∙ ap after_second m2) in
    let h2 = ap (λ (x : Attempt PruneResult × Store). x.0) (sym c2) ∙ h in
    let kept = later ++ r1 ∷ r2 ∷ [] in
    let e' = ap (λ l. (l ++ r1 ∷ []) ++ r2 ∷ []) e ∙ grown before later b r1 r2 in
    let c3 =
      c2
      ∙ prune-meets w faults a n k store2 before kept b s2 e' (occupied_end later r1 r2)
          (prune_not_deleted faults b.h_r b.receipt_id n k store2 result h2) in
    subst (λ (x : Attempt PruneResult × Store). IsSealed w store.rows b.h_r i d result x.1) (sym c3)
      (subst
        (λ (z : PruneResult). IsSealed w store.rows b.h_r i d z (record store2 { rows = kept }))
        (returned_inj (ap (λ (x : Attempt PruneResult × Store). x.0) (sym c3) ∙ h))
        (record {
          before = before;
          boundary = b;
          later = later;
          sealed = r1;
          pruned = r2;
          split = e;
          root = refl;
          kept = refl;
          consistent = retained-IsConsistent w a store2 before kept b s2 e';
          tip_before = refl;
          tip_after = refl;
          noted =
              subst (IsSeal r1 b.h_r i d b.receipt_id) en
                (prepare-IsSeal w store b.h_r i d b.receipt_id n now r1 p1);
          dropped =
              subst (IsPrune r2 b.h_r i b.receipt_id) en
                (prepare-IsPrune w store1 b.h_r i b.receipt_id n next r2 p2);
          named = refl;
          through = refl;
          gone = en;
          left = omega (arith, ek, length-append later (r1 ∷ r2 ∷ []));
        }))
  where
    after_second : Store → Attempt PruneResult × Store
    after_second store'' = prune faults b.h_r b.receipt_id n k store''

    after_first : Store → Attempt PruneResult × Store
    after_first store' =
        after_write (write w faults.pruned store' (pruned_call b.h_r i b.receipt_id n next))
          after_second
