-- ===== src/Store/Undone.antt =====
-- What an epoch seal that raises leaves (`seal_and_prune_epoch`, `transaction`, ugk/storage/store.py).
use ugk.Base.{
  ℕ, ◌+◌, ◌≤◌, String, Bool, true, Option, none, some, List, [], ◌∷◌, ◌++◌, ◌≡◌, ◌⊎◌, inl, inr,
  refl, sym, ap, ◌∙◌, arith, ◌==◌, find, length, length-append, keep, leb, ◌||◌, Bool-cases,
}
use mathlib.Core.List.{append_assoc, append-nil}
use ugk.Json.{Json}
use ugk.Store.Receipt.{Receipt}
use ugk.Store.Attempt.{Attempt, raised, returned, Exception}
use ugk.Store.World.{World}
use ugk.Store.Write.{Store}
use ugk.Store.Append.{write}
use ugk.Store.Rows.{Grown, write-rows}
use ugk.Store.Chain.{verify_segment}
use ugk.Store.Epoch.{
  unrolled, rolled_back, close_transaction, transaction, PruneFaults, retained, prune, after_write,
  prune_body, sealed_call, pruned_call, seal_and_prune_epoch, sealed_at,
}

-- The rows have at most this many more behind them.
abbrev Longer : ℕ → List Receipt → List Receipt → Type 0
Longer n before after = (added : List Receipt) × (length added ≤ n) × (after ≡ before ++ added)

-- At most two rows more, and those up to the boundary deleted or not.
abbrev pub Remains : ℕ → List Receipt → List Receipt → Type 0
Remains boundary_id before after =
    (added : List Receipt) × (length added ≤ 2)
    × ((after ≡ before ++ added) ⊎ (after ≡ retained boundary_id (before ++ added)))

Longer-Grown :
    (n : ℕ) (op : String) (failed : Bool) (before between after : List Receipt)
    → Longer n before between
    → Grown op failed between after
    → Longer (n + 1) before after
Longer-Grown n op failed before between after (added, short, e) (inl same) =
    (added, omega arith, same ∙ e)
Longer-Grown n op failed before between after (added, short, e) (inr (r, more, o, f)) = (
  added ++ r ∷ [],
  rw (length-append added (r ∷ [])) (omega arith),
  more ∙ (ap (λ l. l ++ r ∷ []) e ∙ append_assoc before added (r ∷ [])),
)

prune-rows :
    (faults : PruneFaults) (seal : String) (b n k : ℕ) (store : Store)
    → ((prune faults seal b n k store).1.rows ≡ store.rows)
      ⊎ ((prune faults seal b n k store).1.rows ≡ retained b store.rows)
unfolding prune
prune-rows faults seal b n k store = elim (Bool-cases faults.deletion) [
  | inl e ↦ inl (rw e refl)
  | inr e ↦ inr (ground (arith, e))
]

prune-Remains :
    (faults : PruneFaults) (seal : String) (b n k : ℕ) (before : List Receipt) (store : Store)
    → Longer 2 before store.rows
    → Remains b before (prune faults seal b n k store).1.rows
prune-Remains faults seal b n k before store (added, short, e) =
    elim (prune-rows faults seal b n k store) [
      | inl same ↦ (added, short, inl (same ∙ e))
      | inr cut ↦ (added, short, inr (cut ∙ ap (retained b) e))
    ]

-- Wherever the chain of writes ends.
after_write-then :
    {A : Type 0} (P : Store → Type 0) (m : Attempt Receipt × Store)
    (next : Store → Attempt A × Store)
    → P m.1
    → P (next m.1).1
    → P (after_write m next).1
unfolding after_write
after_write-then P (raised e, store) next h g = h
after_write-then P (returned r, store) next h g = g

prune_body-Remains :
    (w : World) (faults : PruneFaults) (seal intent description : String) (b n k : ℕ)
    (clock : Json × Json) (store : Store)
    → Remains b store.rows (prune_body w faults seal intent description b n k clock store).1.rows
unfolding prune_body
prune_body-Remains w faults seal i d b n k (now, next) store =
    let first = write w faults.sealed store (sealed_call seal i d b n now) in
    let second = write w faults.pruned first.1 (pruned_call seal i b n next) in
    let one =
      Longer-Grown 0 _ _ store.rows store.rows first.1.rows
        ([], omega arith, sym (append-nil store.rows))
        (write-rows w faults.sealed store (sealed_call seal i d b n now)) in
    let two =
      Longer-Grown 1 _ _ store.rows first.1.rows second.1.rows one
        (write-rows w faults.pruned first.1 (pruned_call seal i b n next)) in
    let P : Store → Type 0 = λ s. Remains b store.rows s.rows in
    after_write-then P first _ (let (added, short, e) = one in (added, omega arith, inl e)) (
      after_write-then P second _ (let (added, short, e) = two in (added, short, inl e))
        (prune-Remains faults seal b n k store.rows second.1 two))

-- A rollback that fails leaves what the body wrote, under the tip from before.
pub record IsLeft (faults : PruneFaults) (boundary_id : ℕ) (store after : Store) : Type 0 where
  pub failed : faults.closing.rollback ≡ true
  pub tip : after.prior_h_r ≡ store.prior_h_r
  pub meaning : after.prior_h_m ≡ store.prior_h_m
  pub intent : after.prior_intent_ref ≡ store.prior_intent_ref
  pub depth : after.txn_depth ≡ store.txn_depth
  pub remains : Remains boundary_id store.rows after.rows

-- The store is as it was, or the rollback failed behind a boundary that was found.
abbrev pub IsUndone : PruneFaults → String → Store → Store → Type 0
IsUndone faults seal store after =
    (after ≡ store)
    ⊎ ((boundary : Receipt) × (find (λ r. r.h_r == seal) store.rows ≡ some boundary)
        × IsLeft faults boundary.receipt_id store after)

rolled_back-IsLeft :
    (faults : PruneFaults) (b : ℕ) (store after : Store)
    → Remains b store.rows after.rows
    → (rolled_back faults.closing store after ≡ store)
      ⊎ IsLeft faults b store (rolled_back faults.closing store after)
unfolding rolled_back unrolled
rolled_back-IsLeft faults b store after h = elim (Bool-cases faults.closing.rollback) [
  | inl e ↦ rw e (
      inr (record {
        failed = refl;
        tip = refl;
        meaning = refl;
        intent = refl;
        depth = refl;
        remains = h;
      }))
  | inr e ↦ rw e (inl refl)
]

close_transaction-IsLeft :
    {A : Type 0} (faults : PruneFaults) (b : ℕ) (store : Store) (x : Attempt A × Store)
    (e : Exception)
    → (close_transaction faults.closing store x).0 ≡ raised e
    → Remains b store.rows x.1.rows
    → ((close_transaction faults.closing store x).1 ≡ store)
      ⊎ IsLeft faults b store (close_transaction faults.closing store x).1
unfolding close_transaction
close_transaction-IsLeft faults b store (raised d, after) e h m =
    rolled_back-IsLeft faults b store after m
close_transaction-IsLeft faults b store (returned a, after) e h m =
    elim (Bool-cases faults.closing.release) [
      | inl t ↦ simp t (rolled_back-IsLeft faults b store after m)
      | inr t ↦ absurd (ground (arith, t, h))
    ]

sealed_at-IsUndone :
    (w : World) (faults : PruneFaults) (seal intent description : String) (clock : Json × Json)
    (store : Store) (o : Option Receipt) (e : Exception)
    → find (λ r. r.h_r == seal) store.rows ≡ o
    → (sealed_at w faults seal intent description clock store o).0 ≡ raised e
    → IsUndone faults seal store (sealed_at w faults seal intent description clock store o).1
unfolding sealed_at transaction
sealed_at-IsUndone w f seal i d c store none e found h = inl refl
sealed_at-IsUndone w f seal i d c store (some b) e found h =
    let frontier = retained b.receipt_id store.rows in
    let prefix = keep (λ r. leb r.receipt_id b.receipt_id) store.rows in
    let body =
      prune_body w f seal i d b.receipt_id (length prefix) (length frontier) c
        (record store { txn_depth = store.txn_depth + 1 }) in
    elim (Bool-cases (verify_segment frontier seal)) [
      | inl t ↦
          rw t
            (elim (close_transaction-IsLeft f b.receipt_id store body e (ground (arith, t, h)) (
              prune_body-Remains w f seal i d b.receipt_id (length prefix) (length frontier) c
                (record store { txn_depth = store.txn_depth + 1 }))) [
                  | inl same ↦ inl same
                  | inr left ↦ inr (b, found, left)
                ])
      | inr t ↦ rw t (inl refl)
    ]

-- An epoch seal that raises, whatever fails and wherever, leaves the store as it was, unless the
-- rollback to the savepoint itself fails; then the tip in memory and the depth of transactions are
-- those from before, and the rows are those from before and at most two more, with or without the
-- ones up to the sealed row.
pub seal_and_prune_epoch-IsUndone :
    (w : World) (blank : String → Bool) (faults : PruneFaults) (store : Store)
    (seal intent description : String) (clock : Json × Json) (e : Exception)
    → (seal_and_prune_epoch w blank faults store seal intent description clock).0 ≡ raised e
    → IsUndone faults seal store
        (seal_and_prune_epoch w blank faults store seal intent description clock).1
unfolding seal_and_prune_epoch
seal_and_prune_epoch-IsUndone w blank f store seal i d c e h =
    elim (Bool-cases (i == "" || blank i)) [
      | inl t ↦ rw t (inl refl)
      | inr t ↦ rw t (
          sealed_at-IsUndone w f seal i d c store (find (λ r. r.h_r == seal) store.rows) e refl
            (ground (arith, t, h)))
    ]
