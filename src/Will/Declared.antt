-- ===== src/Will/Declared.antt =====
-- What stays of a revocation (`IntentStore`, ugk/intent.py).
use ugk.Base.{
  String, Bool, true, false, List, [], ◌∷◌, ◌++◌, ◌≡◌, refl, sym, ◌∙◌, any, keep, map, String-cases,
  subst, not, ◌&&◌, ◌||◌, arith, ◌==◌, Bool-cases, inl, inr,
}
use ugk.Store.Write.{Fault, no_fault, at_insert, at_commit}
use ugk.Will.Intent.{
  IntentDeclaration, IntentRevocation, RevokeFault, of_write, at_update, IntentStore, Row, has_hash,
  insert_row, declare, revoke, mark, is_active, active_declarations, read_row,
}

-- What is done to the store later.
pub data Event : Type 0 where
  declared : Fault → IntentDeclaration → Event
  revoked : RevokeFault → IntentRevocation → Event

pub run : IntentStore → List Event → IntentStore
run store [] = store
run store (declared fault d ∷ events) = run (declare fault store d) events
run store (revoked fault v ∷ events) = run (revoke fault store v) events

-- The hash is there, and every row that has it is revoked.
record IsWithdrawn (hash : String) (rows : List Row) : Type 0 where
  present : any (λ r. has_hash hash r) rows ≡ true
  gone : any (λ r. has_hash hash r && not r.revoked) rows ≡ false

any-append : (p : Row → Bool) (xs ys : List Row) → any p (xs ++ ys) ≡ (any p xs || any p ys)
any-append p [] ys = refl
any-append p (x ∷ xs) ys = ground (arith, any-append p xs ys)

has_hash-mark : (hash k : String) (row : Row) → has_hash hash (mark k row) ≡ has_hash hash row
unfolding mark has_hash
has_hash-mark hash k row = ground arith

any-mark :
    (hash k : String) (rows : List Row)
    → any (λ r. has_hash hash r) (map (λ r. mark k r) rows) ≡ any (λ r. has_hash hash r) rows
any-mark hash k [] = refl
any-mark hash k (r ∷ rs) = rw (has_hash-mark hash k r, any-mark hash k rs) refl

-- A mark leaves no more rows unrevoked, and none under its own hash.
gone-mark :
    (hash k : String) (rows : List Row)
    → any (λ r. has_hash hash r && not r.revoked) rows ≡ false
    → any (λ r. has_hash hash r && not r.revoked) (map (λ r. mark k r) rows) ≡ false
unfolding mark has_hash
gone-mark hash k [] h = refl
gone-mark hash k (r ∷ rs) h = ground (arith, gone-mark hash k rs)

gone-mark_self :
    (hash : String) (rows : List Row)
    → any (λ r. has_hash hash r && not r.revoked) (map (λ r. mark hash r) rows) ≡ false
unfolding mark has_hash
gone-mark_self hash [] = refl
gone-mark_self hash (r ∷ rs) = ground (arith, gone-mark_self hash rs)

gone-append :
    (hash : String) (row : Row) (rows : List Row)
    → IsWithdrawn hash rows
    → any (λ r. has_hash row.declaration.declaration_hash r) rows ≡ false
    → any (λ r. has_hash hash r && not r.revoked) (rows ++ row ∷ []) ≡ false
unfolding has_hash
gone-append hash row rows w e = elim (String-cases row.declaration.declaration_hash hash) [
  | inl (t, p) ↦
      let q = subst (λ (h : String). any (λ r. has_hash h r) rows ≡ false) p e in
      absurd (let bad : true ≡ false = sym w.present ∙ q in cc)
  | inr (f, n) ↦
      let split = any-append (λ r. has_hash hash r && not r.revoked) rows (row ∷ []) in
      split ∙ rw (w.gone, f) refl
]

-- A declaration whose hash is there is ignored.
insert-IsWithdrawn :
    (hash : String) (row : Row) (rows : List Row)
    → IsWithdrawn hash rows
    → IsWithdrawn hash (insert_row row rows)
unfolding insert_row
insert-IsWithdrawn hash row rows w =
    elim (Bool-cases (any (λ r. has_hash row.declaration.declaration_hash r) rows)) [
      | inl e ↦ rw e w
      | inr e ↦ rw e (record {
        present = rw (any-append (λ r. has_hash hash r) rows (row ∷ []), w.present) refl;
        gone = gone-append hash row rows w e;
      })
    ]

mark-IsWithdrawn :
    (hash k : String) (rows : List Row)
    → IsWithdrawn hash rows
    → IsWithdrawn hash (map (λ r. mark k r) rows)
mark-IsWithdrawn hash k rows w = record {
  present = any-mark hash k rows ∙ w.present;
  gone = gone-mark hash k rows w.gone;
}

run-IsWithdrawn :
    (hash : String) (events : List Event) (store : IntentStore)
    → IsWithdrawn hash store.rows
    → IsWithdrawn hash (run store events).rows
unfolding run declare revoke
run-IsWithdrawn hash [] store w = w
run-IsWithdrawn hash (declared no_fault d ∷ es) store w =
    run-IsWithdrawn hash es (declare no_fault store d) (insert-IsWithdrawn hash _ store.rows w)
run-IsWithdrawn hash (declared at_insert d ∷ es) store w =
    run-IsWithdrawn hash es (declare at_insert store d) w
run-IsWithdrawn hash (declared at_commit d ∷ es) store w =
    run-IsWithdrawn hash es (declare at_commit store d) (insert-IsWithdrawn hash _ store.rows w)
run-IsWithdrawn hash (revoked (of_write no_fault) v ∷ es) store w =
    run-IsWithdrawn hash es (revoke (of_write no_fault) store v)
      (mark-IsWithdrawn hash _ store.rows w)
run-IsWithdrawn hash (revoked (of_write at_insert) v ∷ es) store w =
    run-IsWithdrawn hash es (revoke (of_write at_insert) store v) w
run-IsWithdrawn hash (revoked (of_write at_commit) v ∷ es) store w =
    run-IsWithdrawn hash es (revoke (of_write at_commit) store v)
      (mark-IsWithdrawn hash _ store.rows w)
run-IsWithdrawn hash (revoked at_update v ∷ es) store w =
    run-IsWithdrawn hash es (revoke at_update store v) w

inactive :
    (sorted : List String → List String) (hash scope : String) (rows : List Row)
    → any (λ r. has_hash hash r && not r.revoked) rows ≡ false
    → any
        (λ d. d.declaration_hash == hash)
        (map (λ row. read_row sorted row) (keep (λ row. is_active scope row) rows))
      ≡ false
unfolding has_hash is_active read_row
inactive sorted hash scope [] h = refl
inactive sorted hash scope (r ∷ rs) h = ground (arith, inactive sorted hash scope rs)

-- Once a declaration that is there is revoked, it is active in no scope, whatever is declared and
-- revoked after that.
pub revoke-IsPermanent :
    (sorted : List String → List String) (store : IntentStore) (v : IntentRevocation)
    (events : List Event) (scope : String)
    → any (λ r. has_hash v.revoked_declaration_hash r) store.rows ≡ true
    → any
        (λ d. d.declaration_hash == v.revoked_declaration_hash)
        (active_declarations sorted (run (revoke (of_write no_fault) store v) events) scope)
      ≡ false
unfolding active_declarations revoke
revoke-IsPermanent sorted store v events scope h =
    let hash = v.revoked_declaration_hash in
    let withdrawn : IsWithdrawn hash (map (λ r. mark hash r) store.rows) = record {
      present = any-mark hash hash store.rows ∙ h;
      gone = gone-mark_self hash store.rows;
    } in
    let after = run-IsWithdrawn hash events (revoke (of_write no_fault) store v) withdrawn in
    inactive sorted hash scope _ after.gone
