-- ===== src/Kernel/Horizon.antt =====
-- The refusals of `execute` behind the preflight: each is written as a receipt before it is raised
-- (`_emit_protocol_error`, steps 1 to 4c of `execute`, ugk/kernel.py).
use ugk.Base.{
  String, Bool, true, false, Option, none, some, ◌==◌, not, ◌&&◌, ◌||◌, keep, List, [],
  if◌then◌else◌,
}
use ugk.Base.Names.{elem}
use ugk.Base.Dict
use ugk.Base.Dict.{Dict}
use ugk.Json.{Json, null, text, arr, obj, end, field, Items, nil}
use ugk.Store.World.{World}
use ugk.Will.Intent.{
  IntentDeclaration, IntentStore, active_declarations, get_declaration, covers_op,
}
use ugk.Will.Checker.{CoverageOutcome, covering, outside, covers}
use ugk.Cgp.Sufficiency.{PolicyEntry, find_enforced_entry, enforce_decision}
use ugk.Governance.Warrant.{
  DecisionWarrant, WarrantStore, create_warrant, write_warrant, result_refuse,
}
use ugk.Kernel.Node.{
  Node, kernel_internal_op, governance_not_founded, governor_signature_required, undeclared_op,
  gate_refusal, protocol_error, Act, ◌>>◌, give, throw,
}
use ugk.Kernel.Request.{Governance, Request, Gate, admits, denies, fails, AuthorityModel}
use ugk.Kernel.Preflight.{Accepted}
use ugk.Kernel.Refuse.{require, refuse_protocol, bump, refuse_gate, operation}

-- Steps 1 to 3.
unfoldable pub is_universal : Governance → Request → Bool
is_universal c q = elem q.op c.universal_ops

-- `verify_governor`
unfoldable pub verify_governor : Governance → String → String → Bool
verify_governor c message sig =
    if c.key_unset
    then false
    else elim (c.ed25519.verify message sig c.governor_key) [ none ↦ false | some b ↦ b ]

unfoldable pub signature_valid : Governance → Request → Accepted → Bool
unfolding operation
signature_valid c q a = elim q.governor_sig [
  | none ↦ false
  | some sig ↦ verify_governor c (c.canonical (obj (operation q a end))) sig
]

unfoldable pub signature_required : Governance → Request → Bool
unfolding is_universal
signature_required c q = c.require_governor_sig && not (is_universal c q) && c.active

-- `not warrant_basis`
unfoldable pub no_basis : Json → Bool
no_basis null = true
no_basis (arr nil) = true
no_basis _ = false

unfoldable pub has_gate : Option Gate → Bool
has_gate none = false
has_gate (some g) = true

unfoldable pub model_of : Governance → Request → Option AuthorityModel
unfolding is_universal
model_of c q = if is_universal c q then none else c.authority_model

unfoldable pub gate_missing : Option AuthorityModel → Request → Bool
unfolding has_gate
gate_missing none q = false
gate_missing (some m) q = m.require_gate && not (has_gate q.gate)

unfoldable pub warrant_missing : Option AuthorityModel → Request → Bool
unfolding no_basis
warrant_missing none q = false
warrant_missing (some m) q = m.require_warrant && no_basis q.warrant_basis

unfoldable pub declared_step : World → Governance → Request → Accepted → Act Unit
unfolding require is_universal refuse_protocol signature_required signature_valid
declared_step w c q a = do
  require (not (elem q.op c.kernel_ops))
      (refuse_protocol w c a.authority q.op "kernel_internal" kernel_internal_op)
  require (is_universal c q || c.active)
      (refuse_protocol w c a.authority q.op "not_founded" governance_not_founded)
  require (not (signature_required c q) || signature_valid c q a)
      (refuse_protocol w c a.authority q.op "governor_sig" governor_signature_required)
  require (elem q.op c.governance_ops)
      (refuse_protocol w c a.authority q.op "undeclared" undeclared_op)

unfoldable pub model_step : World → Governance → Request → Accepted → Act Unit
unfolding require refuse_protocol model_of gate_missing warrant_missing
model_step w c q a = do
  require (not (gate_missing (model_of c q) q))
      (refuse_protocol w c a.authority q.op "require_gate" kernel_internal_op)
  require (not (warrant_missing (model_of c q) q))
      (refuse_protocol w c a.authority q.op "require_warrant" kernel_internal_op)

-- A warrant is given to the store that is attached.
store_warrant : World → Governance → DecisionWarrant → WarrantStore → WarrantStore
store_warrant w c warrant store =
    (write_warrant w.hash c.sort_items c.warrant_fault store warrant).1

unfoldable pub warrant_refused : World → Governance → Items → Node → Option WarrantStore → Node
unfolding store_warrant
warrant_refused w c basis node none = node
warrant_refused w c basis node (some store) = record node {
  warrants = some (
      store_warrant w c
        (create_warrant w.hash c.sort_items (c.sort_items basis) c.law_hash c.legend_hash
          result_refuse c.clock)
        store);
}

-- A refusal warrant where a basis was declared; whatever it raises is swallowed.
unfoldable pub warrant_of_refusal : World → Governance → Json → Node → Node
unfolding warrant_refused
warrant_of_refusal w c (arr basis) node = warrant_refused w c basis node node.warrants
warrant_of_refusal w c _ node = node

-- Step 4.
unfoldable pub gate_step : World → Governance → Request → Accepted → Option Gate → Act Unit
unfolding refuse_protocol refuse_gate bump warrant_of_refusal operation
gate_step w c q a none = give tt
gate_step w c q a (some admits) = give tt
gate_step w c q a (some fails) =
    refuse_protocol w c a.authority q.op "gate_exception" (protocol_error "gate")
gate_step w c q a (some denies) =
    refuse_gate w c a.authority (operation q a end) "gate_refuse" ""
      (λ node. warrant_of_refusal w c q.warrant_basis (bump q.layer node))
      (gate_refusal "gate returned False")

-- Step 4a.
unfoldable pub capability_step :
    World → Governance → Request → Accepted → Option PolicyEntry → Act Unit
unfolding require refuse_gate bump operation
capability_step w c q a none = give tt
capability_step w c q a (some entry) =
    require
      (not (
        enforce_decision c.policy q.jurisdiction q.op
          (Dict.get entry.capability_class q.capability_verdicts)))
      (refuse_gate w c a.authority
        (operation q a (
          field "refusal_cause" (text "insufficient-capability") (
            field "capability_class" (text entry.capability_class) (
              field "enforced_jurisdiction" (text q.jurisdiction) (
                field "refusal_axis" (text "authority")
                  (field "refusal_reason" (text "authority_missing") end))))))
        "gate_refuse" "" (λ node. bump q.layer node) (gate_refusal "authority_missing"))

-- Step 4c.
unfoldable pub locality_step : World → Governance → Request → Accepted → Option String → Act Unit
unfolding require refuse_gate bump operation
locality_step w c q a none = give tt
locality_step w c q a (some locality) = require (q.jurisdiction == locality) (
    refuse_gate w c a.authority
      (operation q a (
        field "required_locality" (text locality) (
          field "supplied_jurisdiction" (text q.jurisdiction) (
            field "refusal_axis" (text "locality")
              (field "refusal_reason" (text "locality_required") end)))))
      "gate_refuse" "" (λ node. bump q.layer node) (gate_refusal "locality_required"))

-- Step 4b: the reference of the intent that covers the operation, or the reason that there is none.
pub data IntentVerdict : Type 0 where
  resolved : String → IntentVerdict
  unresolved : String → IntentVerdict

-- A reference that the caller gives: a declaration of that hash, revoked or not, has to declare the
-- operation.
caller_verdict : Bool → String → String → Option IntentDeclaration → IntentVerdict
caller_verdict require_intent op ref none =
    if require_intent then unresolved "WL-002 intent_ref unresolvable" else resolved ref
caller_verdict require_intent op ref (some d) =
    if covers_op d op
    then resolved ref
    else if require_intent
    then unresolved "WL-002 intent_ref unresolvable"
    else resolved ref

coverage_verdict : Bool → CoverageOutcome → IntentVerdict
coverage_verdict require_intent (covering ref) = resolved ref
coverage_verdict require_intent (outside code) =
    if require_intent then unresolved code else resolved ""

unfoldable pub active_for : World → Governance → IntentStore → List IntentDeclaration
active_for w c store =
    let active = active_declarations w.sorted store c.session_dkn in
    if c.require_scoped_intent then keep (λ d. not (d.scope_ref == "")) active else active

unfoldable pub store_verdict : World → Governance → Request → IntentStore → IntentVerdict
unfolding is_universal caller_verdict coverage_verdict active_for
store_verdict w c q store =
    if is_universal c q
    then resolved q.intent_ref
    else if q.intent_ref == ""
    then coverage_verdict c.require_intent (covers q.op (active_for w c store) [] none)
    else caller_verdict c.require_intent q.op q.intent_ref
        (get_declaration w.sorted store q.intent_ref)

unfoldable pub intent_verdict : World → Governance → Request → IntentVerdict
unfolding store_verdict
intent_verdict w c q = elim c.will_store [
  | none ↦ resolved q.intent_ref
  | some store ↦ store_verdict w c q store
]

-- The intent refusals are not counted by layer, and are written under the kernel's own authority.
unfoldable pub intent_step : World → Governance → Request → IntentVerdict → Act String
unfolding refuse_gate
intent_step w c q (resolved ref) = give ref
intent_step w c q (unresolved reason) =
    refuse_gate w c c.authority
      (field "op" (text q.op) (
        field "reason" (text reason) (
          field "refusal_axis" (text "intent")
            (field "refusal_reason" (text "intent_required_missing") end))))
      "conform" c.legend_hash (λ node. node) (gate_refusal "intent_required_missing")
    >> throw (gate_refusal "intent_required_missing")

-- The reference of the covering intent, once nothing refuses.
unfoldable pub horizon : World → Governance → Request → Accepted → Act String
horizon w c q a = do
  declared_step w c q a
  model_step w c q a
  gate_step w c q a q.gate
  capability_step w c q a (find_enforced_entry c.policy q.jurisdiction q.op)
  locality_step w c q a q.required_locality
  intent_step w c q (intent_verdict w c q)
