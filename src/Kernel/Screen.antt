-- ===== src/Kernel/Screen.antt =====
-- What the refusals of `execute` leave behind (ugk/kernel.py).
use ugk.Base.{ℕ, String, Bool, true, false, Option, none, some, ◌≡◌, ◌⊎◌, inl, inr, refl, ◌∙◌}
use ugk.Base.Dict
use ugk.Json.{Json, Fields, Items, field, text, arr, end}
use ugk.Governance.Warrant.{WarrantStore}
use ugk.Store.Receipt.{Receipt}
use ugk.Store.Attempt.{Attempt, raised, returned}
use ugk.Store.World.{World}
use ugk.Cgp.Sufficiency.{PolicyEntry}
use ugk.Kernel.Node.{
  Node, Outcome, gave, threw, KernelError, store_error, Act, ◌>>=◌, give, throw, proceed, emit,
  lifted,
}
use ugk.Kernel.Request.{Governance, Request, Gate, admits, denies, fails, kernel_call}
use ugk.Kernel.Preflight.{Accepted}
use ugk.Kernel.Refuse.{require, swallow, refuse_protocol, refuse_gate, bump, bump_found}
use ugk.Kernel.Horizon.{
  declared_step, model_step, gate_step, capability_step, locality_step, intent_step, IntentVerdict,
  resolved, unresolved, horizon, warrant_refused, warrant_of_refusal,
}
use ugk.Store.Rows.{Grown}
use ugk.Kernel.Rows.{emit-rows}

-- A refusal: no effect is called, and at most one row is added, a failed one of a refusing operation.
pub record IsRefusal {A : Type 0} (node : Node) (x : Outcome A × Node) : Type 0 where
  pub raises : (e : KernelError) × (x.0 ≡ threw e)
  pub acts : x.1.acts ≡ node.acts
  pub rows :
      Grown "gate_refuse" true node.store.rows x.1.store.rows
      ⊎ Grown "protocol_error" true node.store.rows x.1.store.rows

-- The operation passes and nothing has changed, or it is refused.
abbrev pub Screens : {A : Type 0} → Act A → Type 0
Screens {A} m = (node : Node) → ((a : A) × (m node ≡ (gave a, node))) ⊎ IsRefusal node (m node)

give-Screens : {A : Type 0} (a : A) → Screens (give a)
give-Screens a node = inl (a, refl)

pub proceed-threw :
    {A B : Type 0} (x : Outcome A × Node) (k : A → Act B) (e : KernelError)
    → x.0 ≡ threw e
    → proceed x k ≡ (threw e, x.1)
unfolding proceed
proceed-threw (gave a, node) k e h = absurd (cc)
proceed-threw (threw d, node) k e h = let j : d ≡ e = cc in rw j refl

pub then-Screens :
    {A B : Type 0} (m : Act A) (k : A → Act B)
    → Screens m
    → ((a : A) → Screens (k a))
    → Screens (m >>= k)
unfolding proceed
then-Screens m k hm hk node = elim (hm node) [
  | inl (a, e) ↦ rw e (hk a node)
  | inr r ↦
      let (e, t) = r.raises in
      let same = proceed-threw (m node) k e t in
      inr (rw same (record { raises = (e, refl); acts = r.acts; rows = r.rows }))
]

pub require-Screens :
    (test : Bool) (refusal : Act Unit)
    → ((node : Node) → IsRefusal node (refusal node))
    → Screens (require test refusal)
unfolding require
require-Screens true refusal h node = inl (tt, refl)
require-Screens false refusal h node = inr (h node)

swallow-IsRefusal :
    (node : Node) (e : KernelError) (x : Attempt Receipt × Node)
    → x.1.acts ≡ node.acts
    → Grown "protocol_error" true node.store.rows x.1.store.rows
    → IsRefusal node (swallow e x)
unfolding swallow
swallow-IsRefusal node e (result, after) a g = record { raises = (e, refl); acts = a; rows = inr g }

pub refuse_protocol-IsRefusal :
    (w : World) (c : Governance) (authority op reason : String) (e : KernelError) (node : Node)
    → IsRefusal node (refuse_protocol w c authority op reason e node)
unfolding refuse_protocol kernel_call emit
refuse_protocol-IsRefusal w c authority op reason e node =
    let call =
      kernel_call c "protocol_error" authority
        (field "op" (text op) (field "reason" (text reason) end)) true "protocol_error" "kernel"
        "" in
    swallow-IsRefusal node e (emit w node call) refl (emit-rows w node call)

after-IsRefusal :
    (node : Node) (after : Node → Node) (e : KernelError) (x : Attempt Receipt × Node)
    → ((n : Node) → ((after n).acts ≡ n.acts) × ((after n).store ≡ n.store))
    → x.1.acts ≡ node.acts
    → Grown "gate_refuse" true node.store.rows x.1.store.rows
    → IsRefusal {A = Unit {0}} node (proceed (lifted x) (λ r n. (threw e, after n)))
unfolding proceed lifted
after-IsRefusal node after e (raised d, n) h a g = record {
  raises = (store_error d, refl);
  acts = a;
  rows = inl g;
}
after-IsRefusal node after e (returned r, n) h a g = record {
  raises = (e, refl);
  acts = (h n).0 ∙ a;
  rows = inl (rw ((h n).1) g);
}

pub refuse_gate-IsRefusal :
    (w : World) (c : Governance) (authority : String) (p : Fields) (intent legend : String)
    (after : Node → Node) (e : KernelError) (node : Node)
    → ((n : Node) → ((after n).acts ≡ n.acts) × ((after n).store ≡ n.store))
    → IsRefusal node (refuse_gate w c authority p intent legend after e node)
unfolding refuse_gate kernel_call emit
refuse_gate-IsRefusal w c authority p intent legend after e node h =
    let call = kernel_call c "gate_refuse" authority p true intent "kernel" legend in
    after-IsRefusal node after e (emit w node call) h refl (emit-rows w node call)

pub declared_step-Screens :
    (w : World) (c : Governance) (q : Request) (a : Accepted) → Screens (declared_step w c q a)
unfolding declared_step
declared_step-Screens w c q a =
    let protocol = refuse_protocol-IsRefusal w c a.authority q.op in
    then-Screens _ _ (require-Screens _ _ (protocol "kernel_internal" _)) (λ u.
      then-Screens _ _ (require-Screens _ _ (protocol "not_founded" _)) (λ u.
        then-Screens _ _ (require-Screens _ _ (protocol "governor_sig" _))
          (λ u. require-Screens _ _ (protocol "undeclared" _))))

pub model_step-Screens :
    (w : World) (c : Governance) (q : Request) (a : Accepted) → Screens (model_step w c q a)
unfolding model_step
model_step-Screens w c q a =
    let protocol = refuse_protocol-IsRefusal w c a.authority q.op in
    then-Screens _ _ (require-Screens _ _ (protocol "require_gate" _))
      (λ u. require-Screens _ _ (protocol "require_warrant" _))

-- What is done behind a refusal keeps the store and calls no effect.
abbrev pub Keeps : Node → Node → Type 0
Keeps n m = (m.acts ≡ n.acts) × (m.store ≡ n.store)

bump_found-Keeps : (layer : String) (n : Node) (o : Option ℕ) → Keeps n (bump_found layer n o)
unfolding bump_found
bump_found-Keeps layer n none = (refl, refl)
bump_found-Keeps layer n (some k) = (refl, refl)

pub bump-Keeps : (layer : String) (n : Node) → Keeps n (bump layer n)
unfolding bump
bump-Keeps layer n = bump_found-Keeps layer n (Dict.get layer n.refused)

warrant_refused-Keeps :
    (w : World) (c : Governance) (basis : Items) (n : Node) (o : Option WarrantStore)
    → Keeps n (warrant_refused w c basis n o)
unfolding warrant_refused
warrant_refused-Keeps w c basis n none = (refl, refl)
warrant_refused-Keeps w c basis n (some store) = (refl, refl)

warrant_of_refusal-Keeps :
    (w : World) (c : Governance) (basis : Json) (n : Node)
    → Keeps n (warrant_of_refusal w c basis n)
unfolding warrant_of_refusal
warrant_of_refusal-Keeps w c (arr basis) n = warrant_refused-Keeps w c basis n n.warrants
warrant_of_refusal-Keeps w c _ n = (refl, refl)

pub gate_fails-IsRefusal :
    (w : World) (c : Governance) (q : Request) (a : Accepted) (node : Node)
    → IsRefusal node (gate_step w c q a (some fails) node)
unfolding gate_step
gate_fails-IsRefusal w c q a node =
    refuse_protocol-IsRefusal w c a.authority q.op "gate_exception" _ node

pub gate_denies-IsRefusal :
    (w : World) (c : Governance) (q : Request) (a : Accepted) (node : Node)
    → IsRefusal node (gate_step w c q a (some denies) node)
unfolding gate_step
gate_denies-IsRefusal w c q a node =
    refuse_gate-IsRefusal w c a.authority _ "gate_refuse" "" _ _ node (λ n.
      let (a1, s1) = warrant_of_refusal-Keeps w c q.warrant_basis (bump q.layer n) in
      let (a2, s2) = bump-Keeps q.layer n in (a1 ∙ a2, s1 ∙ s2))

pub gate_step-Screens :
    (w : World) (c : Governance) (q : Request) (a : Accepted) (gate : Option Gate)
    → Screens (gate_step w c q a gate)
unfolding gate_step
gate_step-Screens w c q a none node = inl (tt, refl)
gate_step-Screens w c q a (some admits) node = inl (tt, refl)
gate_step-Screens w c q a (some fails) node = inr (gate_fails-IsRefusal w c q a node)
gate_step-Screens w c q a (some denies) node = inr (gate_denies-IsRefusal w c q a node)

pub capability_step-Screens :
    (w : World) (c : Governance) (q : Request) (a : Accepted) (entry : Option PolicyEntry)
    → Screens (capability_step w c q a entry)
unfolding capability_step
capability_step-Screens w c q a none = give-Screens tt
capability_step-Screens w c q a (some entry) =
    require-Screens _ _ (λ node.
      refuse_gate-IsRefusal w c a.authority _ "gate_refuse" "" _ _ node (bump-Keeps q.layer))

pub locality_step-Screens :
    (w : World) (c : Governance) (q : Request) (a : Accepted) (locality : Option String)
    → Screens (locality_step w c q a locality)
unfolding locality_step
locality_step-Screens w c q a none = give-Screens tt
locality_step-Screens w c q a (some locality) =
    require-Screens _ _ (λ node.
      refuse_gate-IsRefusal w c a.authority _ "gate_refuse" "" _ _ node (bump-Keeps q.layer))

throw-Screens : {A : Type 0} (e : KernelError) → Screens (throw {A = A} e)
throw-Screens e node = inr (record { raises = (e, refl); acts = refl; rows = inl (inl refl) })

pub intent_step-Screens :
    (w : World) (c : Governance) (q : Request) (v : IntentVerdict) → Screens (intent_step w c q v)
unfolding intent_step
intent_step-Screens w c q (resolved ref) = give-Screens ref
intent_step-Screens w c q (unresolved reason) =
    then-Screens _ _
      (λ node. inr (
        refuse_gate-IsRefusal w c c.authority _ "conform" c.legend_hash _ _ node
          (λ n. (refl, refl))))
      (λ u. throw-Screens _)

pub horizon-Screens :
    (w : World) (c : Governance) (q : Request) (a : Accepted) → Screens (horizon w c q a)
unfolding horizon
horizon-Screens w c q a = then-Screens _ _ (declared_step-Screens w c q a) (λ u.
    then-Screens _ _ (model_step-Screens w c q a) (λ u.
      then-Screens _ _ (gate_step-Screens w c q a q.gate) (λ u.
        then-Screens _ _ (capability_step-Screens w c q a _) (λ u.
          then-Screens _ _ (locality_step-Screens w c q a _) (λ u. intent_step-Screens w c q _)))))
