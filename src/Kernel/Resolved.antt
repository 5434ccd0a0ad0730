-- ===== src/Kernel/Resolved.antt =====
-- The life of a continuation record (`defer_operation`, `resume_continuation`, ugk/kernel.py).
use ugk.Base.{
  String, Bool, true, false, Option, none, some, List, ◌++◌, All, ◌≡◌, ◌≢◌, refl, ap, sym, ◌∙◌,
  ◌==◌, not, subst, if◌then◌else◌, arith, ==_refl,
}
use ugk.Json.{Json, text, obj, get, json_eq}
use ugk.Store.Receipt.{Receipt, ContinuationColumns}
use ugk.Store.Attempt.{raised, returned, value_error}
use ugk.Store.World.{World}
use ugk.Store.Emit.{continuation_id_of, columns_of}
use ugk.Store.Continuation.{Reader, bears, find_continuation}
use ugk.Store.Continued.{find_continuation-keeps}
use ugk.Kernel.Node.{Node, Outcome, gave, threw, lifted}
use ugk.Kernel.Request.{Governance}
use ugk.Kernel.Continuation.{
  held_record, Resumption, refuse_resumption, reenter, unless_expired, is_held, resume_record,
  resume_found, resume_continuation, Deferral, deferred_id, deferred_record, defer_call,
  defer_operation, deferring,
}
use ugk.Kernel.Resumed.{IsUnresumed, refuse_resumption-IsUnresumed}
use ugk.Kernel.Marked.{
  proceed-gave, lifted-gave, emit-EndsWith, found_last, continuation_marker-gave,
}

-- What a continuation in this state, behind a resumption that gave, was left in.
abbrev IsResolved : String → Node → Type 0
IsResolved id after =
    (q : Receipt) × (find_continuation id after.store.rows ≡ some q)
    × (q.continuation.continuation_state ≡ text "RESOLVED")

reenter-IsResolved :
    (w : World) (c : Governance) (p : Reader) (q : Resumption) (id : String) (src : Receipt)
    (node after : Node)
    → reenter w c p q id src node ≡ (gave tt, after)
    → IsResolved id after
unfolding reenter
reenter-IsResolved w c p q id src node after h =
    let (parameters, n1, e1, h1) = proceed-gave _ _ tt after h in
    let (t, n2, e2, h2) = proceed-gave _ _ tt after h1 in
    continuation_marker-gave w c p id src "RESOLVED" false "continuation-resolved" n2 after h2

-- A refusal gives nothing.
refusal-throws :
    (w : World) (c : Governance) (p : Reader) (id : String) (src : Receipt) (state reason : String)
    (node after : Node)
    → refuse_resumption w c p id src state reason node ≢ (gave tt, after)
refusal-throws w c p id src state reason node after h =
    let (e, t) = (refuse_resumption-IsUnresumed w c p id src state reason node).raises in
    let z : gave tt ≡ threw e = ap (λ (x : Outcome Unit × Node). x.0) (sym h) ∙ t in cc

unless_expired-IsResolved :
    (w : World) (c : Governance) (p : Reader) (q : Resumption) (id : String) (src : Receipt)
    (expired : Bool) (node after : Node)
    → unless_expired w c p q id src expired node ≡ (gave tt, after)
    → IsResolved id after
unfolding unless_expired
unless_expired-IsResolved w c p q id src true node after h =
    absurd (refusal-throws w c p id src _ _ node after h)
unless_expired-IsResolved w c p q id src false node after h =
    reenter-IsResolved w c p q id src node after h

resume_record-IsResolved :
    (w : World) (c : Governance) (p : Reader) (q : Resumption) (id : String) (src : Receipt)
    (held : Bool) (node after : Node)
    → resume_record w c p q id src held node ≡ (gave tt, after)
    → IsResolved id after
unfolding resume_record
resume_record-IsResolved w c p q id src false node after h =
    absurd (refusal-throws w c p id src _ _ node after h)
resume_record-IsResolved w c p q id src true node after h =
    let (expired, n, e, h1) = proceed-gave _ _ tt after h in
    unless_expired-IsResolved w c p q id src expired n after h1

resume_found-IsResolved :
    (w : World) (c : Governance) (p : Reader) (q : Resumption) (id : String) (o : Option Receipt)
    (node after : Node)
    → resume_found w c p q id o node ≡ (gave tt, after)
    → IsResolved id after
unfolding resume_found
resume_found-IsResolved w c p q id none node after h = absurd (cc)
resume_found-IsResolved w c p q id (some src) node after h =
    resume_record-IsResolved w c p q id src (is_held src) node after h

-- No row of these holds the continuation again.
abbrev pub NotHeld : String → List Receipt → Type 0
NotHeld id rows = All (λ r. bears id r ≡ true → is_held r ≡ false) rows

IsResolved-later :
    (id : String) (node next : Node) (added : List Receipt)
    → IsResolved id node
    → next.store.rows ≡ node.store.rows ++ added
    → NotHeld id added
    → (r : Receipt) × (find_continuation id next.store.rows ≡ some r) × (is_held r ≡ false)
unfolding is_held json_eq
IsResolved-later id node next added (q, found, state) rows all = rw rows (
    find_continuation-keeps id (λ r. is_held r ≡ false) node.store.rows added q found
      (rw state refl) all)

unheld-IsUnresumed :
    (w : World) (c : Governance) (p : Reader) (q : Resumption) (id : String) (node : Node)
    (src : Receipt)
    → find_continuation id node.store.rows ≡ some src
    → is_held src ≡ false
    → IsUnresumed node (resume_continuation w c p q id node)
unfolding resume_continuation resume_found resume_record
unheld-IsUnresumed w c p q id node src found state =
    rw (found, state) (refuse_resumption-IsUnresumed w c p id src _ _ node)

-- Behind a resumption that returned, whatever rows are added to the store, a resumption of the same
-- continuation throws with no effect called, in any session and with any gate and effect, as long as
-- no added row holds the continuation again.
pub resume_continuation-once :
    (w w' : World) (c c' : Governance) (p p' : Reader) (q again : Resumption) (id : String)
    (node next : Node) (added : List Receipt)
    → (resume_continuation w c p q id node).0 ≡ gave tt
    → next.store.rows ≡ (resume_continuation w c p q id node).1.store.rows ++ added
    → NotHeld id added
    → IsUnresumed next (resume_continuation w' c' p' again id next)
unfolding resume_continuation
resume_continuation-once w w' c c' p p' q again id node next added h rows all =
    let x = resume_found w c p q id (find_continuation id node.store.rows) node in
    let resolved =
      resume_found-IsResolved w c p q id (find_continuation id node.store.rows) node x.1
        (ap (λ (o : Outcome Unit). (o, x.1)) h) in
    let (src, found, state) = IsResolved-later id x.1 next added resolved rows all in
    unheld-IsUnresumed w' c' p' again id next src found state

gave_same :
    {A : Type 0} (a b : A) (n m : Node)
    → ◌≡◌ {A = Outcome A × Node} (gave a, n) (gave b, m)
    → (a ≡ b) × (n ≡ m)
unfolding lifted
gave_same a b n m h = let (e, same) = lifted-gave (returned a, n) b m h in (cc, same)

recomputed_id :
    (id : String) (cid : Json)
    → (if not (id == id)
        then raised (value_error "continuation_id is not the recomputation")
        else returned (text id))
      ≡ returned cid
    → text id ≡ cid
recomputed_id id cid h = ground (arith, ==_refl id)

held_id :
    (w : World) (c : Governance) (d : Deferral) (node : Node) (cid : Json)
    → continuation_id_of w.hash w.dumps (deferred_record w c d node) ≡ returned cid
    → text (deferred_id w c d node) ≡ cid
unfolding continuation_id_of deferred_record held_record deferred_id get json_eq
held_id w c d node cid h = recomputed_id (deferred_id w c d node) cid h

-- The stored record of a deferral: it is held, and has what the resumption runs again.
pub record IsStored (w : World) (c : Governance) (d : Deferral) (id : String) (after : Node)
    : Type 0 where
  pub src : Receipt
  pub last : find_continuation id after.store.rows ≡ some src
  pub held : is_held src ≡ true
  pub operation : src.continuation.continuation_op ≡ text d.op
  pub authority : src.continuation.continuation_authority ≡ text (deferring c d)
  pub parameters : src.continuation.continuation_parameters ≡ text (w.dumps (obj d.parameters))
  pub jurisdiction : src.continuation.continuation_jurisdiction ≡ text d.jurisdiction

deferred-IsStored :
    (w : World) (c : Governance) (d : Deferral) (node after : Node) (id : String)
    → defer_operation w c d node ≡ (gave id, after)
    → (id == "") ≡ false
    → IsStored w c d id after
unfolding defer_operation defer_call deferred_record held_record columns_of get is_held json_eq
deferred-IsStored w c d node after id h n =
    let (r, n1, e, h1) = proceed-gave _ _ id after h in
    let fields = deferred_record w c d node in
    let (cid, made, ends) = emit-EndsWith w node (defer_call w c d node) fields r n1 refl e in
    let (same, at_end) = gave_same (deferred_id w c d node) id n1 after h1 in
    let named = sym (held_id w c d node cid made) ∙ ap text same in
    let (src, found, k) = found_last id (columns_of w.hash w.dumps fields cid) n1 n named ends in
    record {
      src = src;
      last = subst (λ (m : Node). find_continuation id m.store.rows ≡ some src) at_end found;
      held = rw (ap (λ (k : ContinuationColumns). k.continuation_state) k) refl;
      operation = ap (λ (k : ContinuationColumns). k.continuation_op) k;
      authority = ap (λ (k : ContinuationColumns). k.continuation_authority) k;
      parameters = ap (λ (k : ContinuationColumns). k.continuation_parameters) k;
      jurisdiction = ap (λ (k : ContinuationColumns). k.continuation_jurisdiction) k;
    }

-- A deferral that gives an id, which is not the empty text, leaves a record that is found under it,
-- is held, and has the operation, the authority, the parameters and the jurisdiction.
pub defer_operation-IsStored :
    (w : World) (c : Governance) (d : Deferral) (node : Node) (id : String)
    → (defer_operation w c d node).0 ≡ gave id
    → (id == "") ≡ false
    → IsStored w c d id (defer_operation w c d node).1
unfolding defer_operation
defer_operation-IsStored w c d node id h n =
    let x = defer_operation w c d node in
    deferred-IsStored w c d node x.1 id (ap (λ (o : Outcome String). (o, x.1)) h) n
