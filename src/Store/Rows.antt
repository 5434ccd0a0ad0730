-- ===== src/Store/Rows.antt =====
-- What one write leaves in the store (ugk/storage/store.py).
use ugk.Base.{String, Bool, List, [], ◌∷◌, ◌++◌, ◌≡◌, ◌⊎◌, inl, inr, refl, nat_eq, Bool-cases}
use ugk.Store.Receipt.{Receipt}
use ugk.Store.Attempt.{Attempt, raised, returned}
use ugk.Store.World.{World}
use ugk.Store.Write.{WriteCall, Store, Fault, no_fault, at_insert, at_commit}
use ugk.Store.Append.{prepare, insert, advance, append, finish, write}
use ugk.Store.Prepared.{prepare-call}

-- The rows are as they were, or have one more, of this operation and status.
abbrev pub Grown : String → Bool → List Receipt → List Receipt → Type 0
Grown op failed before after =
    (after ≡ before)
    ⊎ ((r : Receipt) × (after ≡ before ++ r ∷ []) × (r.op ≡ op) × (r.failed ≡ failed))

append-rows :
    (fault : Fault) (store : Store) (r : Receipt)
    → ((append fault store r).1.rows ≡ store.rows)
      ⊎ ((append fault store r).1.rows ≡ store.rows ++ r ∷ [])
unfolding append insert advance
append-rows no_fault store r = inr refl
append-rows at_insert store r = inl refl
append-rows at_commit store r = elim (Bool-cases (nat_eq store.txn_depth 0)) [
  | inl e ↦ inr (rw e refl)
  | inr e ↦ inr (rw e refl)
]

finish-rows :
    (w : World) (fault : Fault) (store : Store) (call : WriteCall) (x : Attempt Receipt)
    → prepare w store call ≡ x
    → Grown call.op call.failed store.rows (finish fault store x).1.rows
unfolding finish
finish-rows w fault store call (raised e) h = inl refl
finish-rows w fault store call (returned r) h =
    let (o, f) = prepare-call w store call r h in
    elim (append-rows fault store r) [ inl e ↦ inl e | inr e ↦ inr (r, e, o, f) ]

pub write-rows :
    (w : World) (fault : Fault) (store : Store) (call : WriteCall)
    → Grown call.op call.failed store.rows (write w fault store call).1.rows
unfolding write
write-rows w fault store call = finish-rows w fault store call (prepare w store call) refl
