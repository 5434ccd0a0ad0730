-- ===== src/Kernel/Resumed.antt =====
-- Resumption of deferred operations (`resume_continuation`, ugk/kernel.py).
use ugk.Base.{
  String, Bool, true, false, Option, none, some, [], ◌≡◌, ◌⊎◌, inl, inr, refl, ap, sym, ◌∙◌, subst,
  if◌then◌else◌,
}
use ugk.Json.{null, obj, end}
use ugk.Store.Receipt.{Receipt}
use ugk.Store.Attempt.{Attempt, raised, returned, Exception}
use ugk.Store.World.{World}
use ugk.Store.Continuation.{Reader, committed_height, find_continuation, continuation_expired}
use ugk.Kernel.Node.{
  Node, Outcome, gave, threw, KernelError, store_error, gate_refusal, Act, throw, proceed, emit,
  lifted,
}
use ugk.Store.Rows.{Grown}
use ugk.Kernel.Rows.{emit-rows}
use ugk.Kernel.Order.{emit-acts}
use ugk.Kernel.Request.{Governance}
use ugk.Kernel.Screen.{IsRefusal, proceed-threw}
use ugk.Kernel.Execute.{execute}
use ugk.Kernel.Called.{Behind, proceed-acts}
use ugk.Kernel.Before.{IsAdmit, execute-Behind}
use ugk.Kernel.Continuation.{
  loaded, marker_record, marker_call, continuation_marker, Resumption, captured_request,
  refuse_resumption, reenter, unless_expired, is_held, resume_record, resume_found,
  resume_continuation,
}

-- What is not resumed: an error is thrown, no effect is called, and at most a marker is added.
pub record IsUnresumed (node : Node) (x : Outcome Unit × Node) : Type 0 where
  pub raises : (e : KernelError) × (x.0 ≡ threw e)
  pub acts : x.1.acts ≡ node.acts
  pub rows : Grown "gate_refuse" false node.store.rows x.1.store.rows

-- The record that a resumption needs.
pub record IsResumable (p : Reader) (id : String) (node : Node) : Type 0 where
  pub src : Receipt
  pub last : find_continuation id node.store.rows ≡ some src
  pub held : is_held src ≡ true
  pub unexpired :
      continuation_expired p src.continuation.continuation_expiry_basis
        (committed_height node.store.rows)
        []
      ≡ returned false

-- A computation of the store either throws where it stands, or is followed.
pub read-then :
    {A B : Type 0} (x : Attempt A) (node : Node) (k : A → Act B) (P : Outcome B × Node → Type 0)
    → ((e : Exception) → x ≡ raised e → P (threw (store_error e), node))
    → ((a : A) → x ≡ returned a → P (k a node))
    → P (proceed (lifted (x, node)) k)
unfolding proceed lifted
read-then (raised e) node k P t g = t e refl
read-then (returned a) node k P t g = g a refl

-- A marker calls no effect and adds at most its row.
abbrev Marks : String → Node → Outcome Unit × Node → Type 0
Marks op node x = (x.1.acts ≡ node.acts) × Grown op false node.store.rows x.1.store.rows

written-Marks :
    (op : String) (node : Node) (x : Attempt Receipt × Node)
    → x.1.acts ≡ node.acts
    → Grown op false node.store.rows x.1.store.rows
    → Marks op node (proceed {B = Unit {0}} (lifted x) (λ r n. (gave tt, n)))
unfolding proceed lifted
written-Marks op node (raised e, n) a g = (a, g)
written-Marks op node (returned r, n) a g = (a, g)

abbrev marker_op : Bool → String
marker_op refuse = if refuse then "gate_refuse" else "continuation_resolved"

continuation_marker-Marks :
    (w : World) (c : Governance) (p : Reader) (id : String) (src : Receipt) (state : String)
    (refuse : Bool) (reason : String) (node : Node)
    → Marks (marker_op refuse) node (continuation_marker w c p id src state refuse reason node)
unfolding continuation_marker marker_call
continuation_marker-Marks w c p id src state refuse reason node =
    let P = Marks (marker_op refuse) node in
    read-then (loaded p (obj end) src.continuation.continuation_parameters) node _ P
      (λ e h. (refl, inl refl))
      (λ parameters h.
        read-then (loaded p null src.continuation.continuation_expiry_basis) node _ P
          (λ e h'. (refl, inl refl))
          (λ basis h'.
            let call =
              marker_call c id src refuse reason (marker_record id src state parameters basis) in
            written-Marks (marker_op refuse) node (emit w node call) (emit-acts w node call)
              (emit-rows w node call)))

throws-IsUnresumed :
    (node : Node) (x : Outcome Unit × Node) (e : KernelError)
    → Marks "gate_refuse" node x
    → IsUnresumed node (proceed x (λ _. throw e))
unfolding proceed
throws-IsUnresumed node (gave t, n) e m = record { raises = (e, refl); acts = m.0; rows = m.1 }
throws-IsUnresumed node (threw d, n) e m = record { raises = (d, refl); acts = m.0; rows = m.1 }

pub refuse_resumption-IsUnresumed :
    (w : World) (c : Governance) (p : Reader) (id : String) (src : Receipt) (state : String)
    (reason : String) (node : Node)
    → IsUnresumed node (refuse_resumption w c p id src state reason node)
unfolding refuse_resumption
refuse_resumption-IsUnresumed w c p id src state reason node =
    throws-IsUnresumed node (continuation_marker w c p id src state true reason node)
      (gate_refusal reason) (continuation_marker-Marks w c p id src state true reason node)

-- The operation is refused, or its effect is called behind its admission.
abbrev pub IsAdmitted : Node → Outcome Unit × Node → Type 0
IsAdmitted node x = IsRefusal node x ⊎ Behind IsAdmit node.store.rows node.acts x.1.acts

followed-IsAdmitted :
    (node : Node) (x : Outcome Unit × Node) (k : Unit → Act Unit)
    → ((t : Unit) (n : Node) → (k t n).1.acts ≡ n.acts)
    → IsAdmitted node x
    → IsAdmitted node (proceed x k)
followed-IsAdmitted node x k h (inl r) =
    let (e, t) = r.raises in
    rw (proceed-threw x k e t) (inl (record { raises = (e, refl); acts = r.acts; rows = r.rows }))
followed-IsAdmitted node x k h (inr b) =
    inr (subst (Behind IsAdmit node.store.rows node.acts) (sym (proceed-acts x k h)) b)

reenter-IsAdmitted :
    (w : World) (c : Governance) (p : Reader) (q : Resumption) (id : String) (src : Receipt)
    (node : Node)
    → IsAdmitted node (reenter w c p q id src node)
unfolding reenter
reenter-IsAdmitted w c p q id src node =
    read-then (loaded p (obj end) src.continuation.continuation_parameters) node _ (IsAdmitted node)
      (λ e h. inl (record { raises = (store_error e, refl); acts = refl; rows = inl (inl refl) }))
      (λ parameters h.
        followed-IsAdmitted node (execute w c (captured_request q id src parameters) node) _
          (λ t n. (continuation_marker-Marks w c p id src "RESOLVED" false _ n).0)
          (execute-Behind w c (captured_request q id src parameters) node))

abbrev Resumes : Reader → String → Node → Outcome Unit × Node → Type 0
Resumes p id node x = IsUnresumed node x ⊎ (IsResumable p id node × IsAdmitted node x)

unless_expired-Resumes :
    (w : World) (c : Governance) (p : Reader) (q : Resumption) (id : String) (src : Receipt)
    (node : Node) (expired : Bool)
    → (expired ≡ false → IsResumable p id node)
    → Resumes p id node (unless_expired w c p q id src expired node)
unfolding unless_expired
unless_expired-Resumes w c p q id src node true h =
    inl (refuse_resumption-IsUnresumed w c p id src _ _ node)
unless_expired-Resumes w c p q id src node false h =
    inr (h refl, reenter-IsAdmitted w c p q id src node)

resume_record-Resumes :
    (w : World) (c : Governance) (p : Reader) (q : Resumption) (id : String) (src : Receipt)
    (node : Node) (held : Bool)
    → find_continuation id node.store.rows ≡ some src
    → is_held src ≡ held
    → Resumes p id node (resume_record w c p q id src held node)
unfolding resume_record
resume_record-Resumes w c p q id src node false f h =
    inl (refuse_resumption-IsUnresumed w c p id src _ _ node)
resume_record-Resumes w c p q id src node true f h =
    read-then
      (continuation_expired p src.continuation.continuation_expiry_basis
        (committed_height node.store.rows) [])
      node _ (Resumes p id node)
      (λ e t. inl (record { raises = (store_error e, refl); acts = refl; rows = inl refl }))
      (λ expired t.
        unless_expired-Resumes w c p q id src node expired
          (λ u. record { src = src; last = f; held = h; unexpired = t ∙ ap returned u }))

resume_found-Resumes :
    (w : World) (c : Governance) (p : Reader) (q : Resumption) (id : String) (o : Option Receipt)
    (node : Node)
    → find_continuation id node.store.rows ≡ o
    → Resumes p id node (resume_found w c p q id o node)
unfolding resume_found
resume_found-Resumes w c p q id none node f =
    inl (record { raises = (gate_refusal _, refl); acts = refl; rows = inl refl })
resume_found-Resumes w c p q id (some src) node f =
    resume_record-Resumes w c p q id src node (is_held src) f refl

-- A resumption throws, with no effect called and at most a marker added; or the last record of the
-- continuation is held and not expired, and the operation is refused with no effect called, or its
-- effect is called at most once, and only on a store that shows, behind the rows that stood there,
-- the receipt of its admission.
pub resume_continuation-Resumes :
    (w : World) (c : Governance) (p : Reader) (q : Resumption) (id : String) (node : Node)
    → IsUnresumed node (resume_continuation w c p q id node)
      ⊎ (IsResumable p id node × IsAdmitted node (resume_continuation w c p q id node))
unfolding resume_continuation
resume_continuation-Resumes w c p q id node =
    resume_found-Resumes w c p q id (find_continuation id node.store.rows) node refl
