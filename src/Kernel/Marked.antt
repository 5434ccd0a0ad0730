-- ===== src/Kernel/Marked.antt =====
-- What a written continuation record leaves in the store (`_continuation_marker`, ugk/kernel.py).
use ugk.Base.{
  String, Bool, false, some, List, [], ◌∷◌, ◌++◌, ◌≡◌, refl, ap, sym, ◌∙◌, ◌==◌, not, subst,
  if◌then◌else◌, Bool-cases, inl, inr, arith,
}
use ugk.Json.{Json, text, obj, Fields, get, is_null, json_eq_refl}
use ugk.Store.Receipt.{Receipt, ContinuationColumns, no_continuation}
use ugk.Store.Attempt.{Attempt, raised, returned, value_error}
use ugk.Store.World.{World}
use ugk.Store.Write.{WriteCall, continuation_of}
use ugk.Store.Prepared.{prepare-continuation}
use ugk.Store.Emit.{validate_continuation, continuation_id_of, columns_of}
use ugk.Store.Continuation.{Reader, find_continuation}
use ugk.Store.Continued.{validate_continuation-columns, find_continuation-last}
use ugk.Kernel.Node.{Node, Outcome, gave, threw, Act, proceed, emit, lifted}
use ugk.Kernel.Order.{emit-returned}
use ugk.Kernel.Request.{Governance}
use ugk.Kernel.Continuation.{marker_record, marker_call, continuation_marker}

-- A chain gave a value: its first act did, and so did the rest.
pub proceed-gave :
    {A B : Type 0} (x : Outcome A × Node) (k : A → Act B) (b : B) (after : Node)
    → proceed x k ≡ (gave b, after)
    → (a : A) × (n : Node) × (x ≡ (gave a, n)) × (k a n ≡ (gave b, after))
unfolding proceed
proceed-gave (gave a, n) k b after h = (a, n, refl, h)
proceed-gave (threw e, n) k b after h = absurd (cc)

pub lifted-gave :
    {A : Type 0} (x : Attempt A × Node) (a : A) (n : Node)
    → lifted x ≡ (gave a, n)
    → (x.0 ≡ returned a) × (x.1 ≡ n)
unfolding lifted
lifted-gave (returned b, m) a n h = ((cc), (cc))
lifted-gave (raised e, m) a n h = absurd (cc)

-- The last row is one with these columns.
pub record EndsWith (k : ContinuationColumns) (node : Node) : Type 0 where
  pub earlier : List Receipt
  pub row : Receipt
  pub rows : node.store.rows ≡ earlier ++ row ∷ []
  pub columns : row.continuation ≡ k

-- A write of a record that gives a receipt leaves the record's columns in the last row.
pub emit-EndsWith :
    (w : World) (node : Node) (call : WriteCall) (c : Fields) (r : Receipt) (after : Node)
    → call.continuation ≡ obj c
    → lifted (emit w node call) ≡ (gave r, after)
    → (cid : Json) × (continuation_id_of w.hash w.dumps c ≡ returned cid)
      × EndsWith (columns_of w.hash w.dumps c cid) after
unfolding continuation_of
emit-EndsWith w node call c r after o h =
    let (gives, same) = lifted-gave (emit w node call) r after h in
    let (p, built, rows) = emit-returned w node call r gives in
    let carried : continuation_of w call ≡ returned p.continuation =
      prepare-continuation w node.store call p built in
    let valid : validate_continuation w.hash w.dumps (obj c) ≡ returned p.continuation =
      subst
        (λ (v : Json).
          (if is_null v then returned no_continuation else validate_continuation w.hash w.dumps v)
          ≡ returned p.continuation)
        o carried in
    let (cid, made, columns) =
      validate_continuation-columns w.hash w.dumps c p.continuation valid in
    (
      cid,
      made,
      record {
        earlier = node.store.rows;
        row = p;
        rows = subst (λ (n : Node). n.store.rows ≡ node.store.rows ++ p ∷ []) same rows;
        columns = sym columns;
      },
    )

named_id :
    (id : String) (cid : Json)
    → (if not (not (id == ""))
        then raised (value_error "continuation_id required")
        else returned (text id))
      ≡ returned cid
    → ((id == "") ≡ false) × (text id ≡ cid)
named_id id cid h = elim (Bool-cases (id == "")) [
  | inl e ↦ absurd (ground (arith, e))
  | inr e ↦ (e, ground (arith, e))
]

-- The id that a record of a transition carries is no empty text.
carried_id :
    (w : World) (id : String) (src : Receipt) (state : String) (parameters basis cid : Json)
    → continuation_id_of w.hash w.dumps (marker_record id src state parameters basis) ≡ returned cid
    → ((id == "") ≡ false) × (text id ≡ cid)
unfolding continuation_id_of marker_record get
carried_id w id src state parameters basis cid h = named_id id cid h

-- A last row with this id is the one that is found.
pub found_last :
    (id : String) (k : ContinuationColumns) (node : Node)
    → (id == "") ≡ false
    → k.continuation_id ≡ text id
    → EndsWith k node
    → (r : Receipt) × (find_continuation id node.store.rows ≡ some r) × (r.continuation ≡ k)
found_last id k node n e ends = (
  ends.row,
  rw ends.rows (
      find_continuation-last id ends.earlier ends.row n
        (rw (ends.columns, e) (json_eq_refl (text id)))),
  ends.columns,
)

-- What a marker that was written leaves.
marker_written :
    (w : World) (c : Governance) (id : String) (src : Receipt) (state : String) (refuse : Bool)
    (reason : String) (parameters basis : Json) (node after : Node) (r : Receipt)
    → lifted (
        emit w node
          (marker_call c id src refuse reason (marker_record id src state parameters basis)))
      ≡ (gave r, after)
    → (q : Receipt) × (find_continuation id after.store.rows ≡ some q)
      × (q.continuation.continuation_state ≡ text state)
unfolding marker_call columns_of marker_record get
marker_written w c id src state refuse reason parameters basis node after r h =
    let fields = marker_record id src state parameters basis in
    let (cid, made, ends) =
      emit-EndsWith w node (marker_call c id src refuse reason fields) fields r after refl h in
    let (named, same) = carried_id w id src state parameters basis cid made in
    let (q, found, k) =
      found_last id (columns_of w.hash w.dumps fields cid) after named (sym same) ends in
    (q, found, ap (λ (k : ContinuationColumns). k.continuation_state) k)

pub continuation_marker-gave :
    (w : World) (c : Governance) (p : Reader) (id : String) (src : Receipt) (state : String)
    (refuse : Bool) (reason : String) (node after : Node)
    → continuation_marker w c p id src state refuse reason node ≡ (gave tt, after)
    → (q : Receipt) × (find_continuation id after.store.rows ≡ some q)
      × (q.continuation.continuation_state ≡ text state)
unfolding continuation_marker
continuation_marker-gave w c p id src state refuse reason node after h =
    let (parameters, n1, e1, h1) = proceed-gave _ _ tt after h in
    let (basis, n2, e2, h2) = proceed-gave _ _ tt after h1 in
    let (r, n3, e3, h3) = proceed-gave _ _ tt after h2 in
    marker_written w c id src state refuse reason parameters basis n2 after r
      (e3 ∙ ap (λ (x : Outcome Unit × Node). (gave r, x.1)) h3)
