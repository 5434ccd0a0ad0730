-- ===== src/Kernel/Before.antt =====
-- Decision before effect (`execute`, ugk/kernel.py).
use ugk.Base.{
  String, false, Option, none, some, List, ◌∷◌, ◌++◌, ◌≡◌, ◌⊎◌, inl, inr, refl, ap, ◌∙◌, Bool-cases,
  ◌==◌,
}
use ugk.Json.{Json, arr}
use ugk.Store.Receipt.{Receipt}
use ugk.Store.World.{World}
use ugk.Store.Write.{Store}
use ugk.Store.Prepared.{prepare-call}
use ugk.Governance.Warrant.{WarrantStore, DecisionWarrant, write_warrant, get_warrant}
use ugk.Kernel.Node.{Node, Outcome, gave, threw, Act, proceed, emit}
use ugk.Kernel.Order.{emit-returned, emit-acts}
use ugk.Kernel.Request.{Governance, Request}
use ugk.Kernel.Preflight.{Accepted, preflight}
use ugk.Kernel.Horizon.{horizon}
use ugk.Kernel.Screen.{IsRefusal, horizon-Screens, proceed-threw}
use ugk.Kernel.Admit.{
  admit, admit_call, warrant_step, issue_warrant, settle, no_warrant, warrant_wanted,
}
use ugk.Kernel.Execute.{admitted, governed, execute}
use ugk.Kernel.Called.{Once, Behind, after_write-Behind, perform-Once}

-- A step that leaves the store and calls no effect.
abbrev Leaves : {A : Type 0} → Node → Outcome A × Node → Type 0
Leaves node x = (x.1.acts ≡ node.acts) × (x.1.store ≡ node.store)

no_warrant-Leaves : (c : Governance) (q : Request) (node : Node) → Leaves node (no_warrant c q node)
unfolding no_warrant
no_warrant-Leaves c q node = elim (Bool-cases (warrant_wanted c q)) [
  | inl e ↦ rw e (refl, refl)
  | inr e ↦ rw e (refl, refl)
]

settle-Leaves :
    (c : Governance) (q : Request) (hash : String) (written : Option String)
    (stored : Option DecisionWarrant) (node : Node)
    → Leaves node (settle c q hash written stored node)
unfolding settle
settle-Leaves c q hash none stored node = no_warrant-Leaves c q node
settle-Leaves c q hash (some u) none node = no_warrant-Leaves c q node
settle-Leaves c q hash (some u) (some v) node = elim (Bool-cases (u == hash)) [
  | inl e ↦ rw e (refl, refl)
  | inr e ↦ rw e (no_warrant-Leaves c q node)
]

issue_warrant-Leaves :
    (w : World) (c : Governance) (q : Request) (v : DecisionWarrant) (o : Option WarrantStore)
    (node : Node)
    → Leaves node (issue_warrant w c q v o node)
unfolding issue_warrant
issue_warrant-Leaves w c q v none node = no_warrant-Leaves c q node
issue_warrant-Leaves w c q v (some store) node =
    let (written, after) = write_warrant w.hash c.sort_items c.warrant_fault store v in
    settle-Leaves c q v.warrant_hash written (get_warrant c.sort_items after v.warrant_hash)
      (record node { warrants = some after })

warrant_step-Leaves :
    (w : World) (c : Governance) (q : Request) (basis : Json) (node : Node)
    → Leaves node (warrant_step w c q basis node)
unfolding warrant_step
warrant_step-Leaves w c q (arr basis) node = issue_warrant-Leaves w c q _ node.warrants node
warrant_step-Leaves w c q _ node = (refl, refl)

then-Once :
    {A : Type 0} (node : Node) (x : Outcome A × Node) (k : A → Act Unit)
    → Leaves node x
    → ((v : A) (n : Node) → Once n.store.rows n.acts (k v n).1.acts)
    → Once node.store.rows node.acts (proceed x k).1.acts
unfolding proceed
then-Once node (threw e, n) k l h = inl l.0
then-Once node (gave v, n) k l h = elim (h v n) [
  | inl e ↦ inl (e ∙ l.0)
  | inr (rest, e) ↦ inr (
    rest,
    e
        ∙ (ap (λ (s : Store). (s.rows ++ rest) ∷ n.acts) l.1
            ∙ ap (λ (t : List (List Receipt)). (node.store.rows ++ rest) ∷ t) l.0),
  )
]

-- The receipt of the decision.
abbrev pub IsAdmit : Receipt → Type 0
IsAdmit r = (r.op ≡ "gate_admit") × (r.failed ≡ false)

admitted-Behind :
    (w : World) (c : Governance) (q : Request) (a : Accepted) (ref : String) (node : Node)
    → Behind IsAdmit node.store.rows node.acts (admitted w c q a ref node).1.acts
unfolding admitted admit admit_call
admitted-Behind w c q a ref node =
    let call = admit_call c q a in
    after_write-Behind IsAdmit node.store.rows node.acts (emit w node call) _
      (emit-acts w node call)
      (λ r e.
        let (p, built, rows) = emit-returned w node call r e in
        (p, prepare-call w node.store call p built, rows))
      (λ r n.
        then-Once n (warrant_step w c q q.warrant_basis n) _
          (warrant_step-Leaves w c q q.warrant_basis n)
          (λ v n'. perform-Once w c q a _ q.effect n'))

governed-Behind :
    (w : World) (c : Governance) (q : Request) (a : Accepted) (node : Node)
    → IsRefusal node (governed w c q a node)
      ⊎ Behind IsAdmit node.store.rows node.acts (governed w c q a node).1.acts
unfolding governed proceed
governed-Behind w c q a node = elim (horizon-Screens w c q a node) [
  | inl (ref, e) ↦ rw e (inr (admitted-Behind w c q a ref node))
  | inr r ↦
      let (e, t) = r.raises in
      rw (proceed-threw (horizon w c q a node) (λ ref. admitted w c q a ref) e t)
        (inl (record { raises = (e, refl); acts = r.acts; rows = r.rows }))
]

preflight-Behind :
    (w : World) (c : Governance) (q : Request) (node : Node) (o : Outcome Accepted)
    → IsRefusal node (proceed (o, node) (λ a. governed w c q a))
      ⊎ Behind IsAdmit node.store.rows node.acts (proceed (o, node) (λ a. governed w c q a)).1.acts
unfolding proceed
preflight-Behind w c q node (threw e) =
    inl (record { raises = (e, refl); acts = refl; rows = inl (inl refl) })
preflight-Behind w c q node (gave a) = governed-Behind w c q a node

-- An operation is refused with no effect called and at most one row added, a failed one that records
-- the refusal; or its effect is called at most once, and only on a store that shows, behind the rows
-- that stood there, the receipt of the admission.
pub execute-Behind :
    (w : World) (c : Governance) (q : Request) (node : Node)
    → IsRefusal node (execute w c q node)
      ⊎ Behind IsAdmit node.store.rows node.acts (execute w c q node).1.acts
unfolding execute
execute-Behind w c q node = preflight-Behind w c q node (preflight c q)
