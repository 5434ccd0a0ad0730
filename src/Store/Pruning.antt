-- ===== src/Store/Pruning.antt =====
-- The retained rows behind a boundary (`seal_and_prune_epoch`, ugk/storage/store.py).
use ugk.Base.{
  ℕ, ◌+◌, ◌≤◌, ◌<◌, String, true, false, some, List, [], ◌∷◌, ◌++◌, ◌≡◌, ◌≢◌, refl, ap, subst,
  arith, eq_iff, ◌==◌, ltb, find, if◌then◌else◌, inl, inr, String-cases, All,
}
use ugk.Store.Receipt.{Receipt}
use ugk.Store.World.{World}
use ugk.Store.Write.{Store}
use ugk.Store.Chain.{stream_hash, stream_hash_from}
use ugk.Store.Linkage.{Linked, stream_hash_from-Linked}
use ugk.Store.Growth.{Ascending, IsConsistent, IsWritten}
use ugk.Store.Epoch.{retained}

retained_all :
    (boundary low high : ℕ) (rows : List Receipt)
    → boundary < low
    → Ascending low rows high
    → retained boundary rows ≡ rows
unfolding retained
retained_all b low high [] p h = refl
retained_all b low high (r ∷ rs) p (q, h) =
    rw (kept b r.receipt_id (omega arith))
      (ap (λ l. r ∷ l) (retained_all b (r.receipt_id + 1) high rs (omega arith) h))
  where
    kept : (m n : ℕ) → m < n → ltb m n ≡ true
    kept m n l = ground arith

pub boundary_above :
    (low high : ℕ) (before later : List Receipt) (b : Receipt)
    → Ascending low (before ++ b ∷ later) high
    → low ≤ b.receipt_id
boundary_above low high [] later b (p, h) = p
boundary_above low high (r ∷ rs) later b (p, h) =
    omega (arith, boundary_above (r.receipt_id + 1) high rs later b h)

-- What is kept is what stands behind the boundary.
pub retained-later :
    (low high : ℕ) (before later : List Receipt) (b : Receipt)
    → Ascending low (before ++ b ∷ later) high
    → retained b.receipt_id (before ++ b ∷ later) ≡ later
unfolding retained
retained-later low high [] later b (p, h) =
    rw (dropped b.receipt_id)
      (retained_all b.receipt_id (b.receipt_id + 1) high later (omega arith) h)
  where
    dropped : (n : ℕ) → ltb n n ≡ false
    dropped n = ground arith
retained-later low high (r ∷ rs) later b (p, h) =
    rw (dropped b.receipt_id r.receipt_id (boundary_above (r.receipt_id + 1) high rs later b h))
      (retained-later (r.receipt_id + 1) high rs later b h)
  where
    dropped : (m n : ℕ) → n + 1 ≤ m → ltb m n ≡ false
    dropped m n l = ground arith

pub Linked-later :
    (a tip : String) (before later : List Receipt) (b : Receipt)
    → Linked a (before ++ b ∷ later) tip
    → Linked b.h_r later tip
Linked-later a tip [] later b (p, n, l) = l
Linked-later a tip (r ∷ rs) later b (p, n, l) = Linked-later r.h_r tip rs later b l

Ascending-later :
    (low high : ℕ) (before later : List Receipt) (b : Receipt)
    → Ascending low (before ++ b ∷ later) high
    → Ascending (b.receipt_id + 1) later high
Ascending-later low high [] later b (p, h) = h
Ascending-later low high (r ∷ rs) later b (p, h) =
    Ascending-later (r.receipt_id + 1) high rs later b h

weaken : (low high : ℕ) (rows : List Receipt) → Ascending low rows high → Ascending 0 rows high
weaken low high [] h = omega arith
weaken low high (r ∷ rs) (p, h) = (omega arith, h)

All-later {ℓ} :
    {A : Type 0} (P : A → Type ℓ) (before later : List A) (b : A)
    → All P (before ++ b ∷ later)
    → All P later
All-later P [] later b (p, h) = h
All-later P (r ∷ rs) later b (p, h) = All-later P rs later b h

-- The first row with the seal's root, as `find` gives it.
pub find-split :
    (seal : String) (rows : List Receipt) (b : Receipt)
    → find (λ r. r.h_r == seal) rows ≡ some b
    → (before : List Receipt) × (later : List Receipt) × (rows ≡ before ++ b ∷ later)
      × (b.h_r ≡ seal)
find-split seal [] b h = ground arith
find-split seal (r ∷ rs) b h = elim (String-cases r.h_r seal) [
  | inl (t, e) ↦
      let same = found t h in
      ([], rs, ap (λ x. x ∷ rs) same, subst (λ (x : Receipt). x.h_r ≡ seal) same e)
  | inr (t, n) ↦
      let (before, later, e, s) = find-split seal rs b (passed t h) in
      (r ∷ before, later, ap (λ l. r ∷ l) e, s)
]
  where
    found :
        (r.h_r == seal) ≡ true
        → (if r.h_r == seal then some r else find (λ r. r.h_r == seal) rs) ≡ some b
        → r ≡ b
    found t h = ground arith

    passed :
        (r.h_r == seal) ≡ false
        → (if r.h_r == seal then some r else find (λ r. r.h_r == seal) rs) ≡ some b
        → find (λ r. r.h_r == seal) rs ≡ some b
    passed t h = ground arith

-- The tip that the rows show is the one they are linked to, whatever their anchor.
pub stream_hash-Linked :
    (anchor tip : String) (rows : List Receipt)
    → rows ≢ []
    → Linked anchor rows tip
    → stream_hash rows ≡ tip
unfolding stream_hash stream_hash_from
stream_hash-Linked a tip [] n l = elim (n refl) [ ]
stream_hash-Linked a tip (r ∷ rs) n (p, m, l) =
    rw (tested r.h_r m) (stream_hash_from-Linked r.h_r tip rs l)
  where
    tested : (x : String) → x ≢ "" → (x == "") ≡ false
    tested x m = ground (arith, eq_iff x "")

-- The store that a deletion up to the boundary leaves is consistent from the boundary's root on.
pub retained-IsConsistent :
    (w : World) (a : String) (store : Store) (before later : List Receipt) (b : Receipt)
    → IsConsistent w a store
    → store.rows ≡ before ++ b ∷ later
    → IsConsistent w b.h_r (record store { rows = later })
retained-IsConsistent w a store before later b s e =
    let ids = subst (λ rows. Ascending 0 rows store.next_id) e s.ids in
    record {
      linked =
          Linked-later a store.prior_h_r before later b
            (subst (λ rows. Linked a rows store.prior_h_r) e s.linked);
      ids =
          weaken (b.receipt_id + 1) store.next_id later
            (Ascending-later 0 store.next_id before later b ids);
      written = All-later (IsWritten w) before later b (subst (All (IsWritten w)) e s.written);
    }
