-- ===== src/Kernel/Continuation.antt =====
-- Deferred operations and regime crossings (`defer_operation`, `emit_bridge`, `_continuation_marker`,
-- `resume_continuation`, ugk/kernel.py).
use ugk.Base.{◌+◌, String, Bool, true, false, Option, none, some, [], ◌==◌, if◌then◌else◌}
use ugk.Json.{Json, null, int, text, obj, Fields, end, field, is_null, json_eq}
use ugk.Store.Receipt.{Receipt}
use ugk.Store.Attempt.{Attempt, raised, returned, type_error}
use ugk.Store.World.{World}
use ugk.Store.Write.{WriteCall}
use ugk.Store.Chain.{stream_hash}
use ugk.Store.Emit.{BridgeVerifier, compute_continuation_id, continuation_model}
use ugk.Store.Continuation.{Reader, committed_height, find_continuation, continuation_expired}
use ugk.Kernel.Node.{
  Node, Effect, threw, gate_refusal, Act, ◌>>=◌, ◌>>◌, give, throw, proceed, emit, lifted,
}
use ugk.Kernel.Request.{Governance, Request, Gate, EffectAtomicity, kernel_call}
use ugk.Kernel.Execute.{execute}

-- What a store's computation gives, as an act of the kernel.
abbrev pub read : {A : Type 0} → Attempt A → Act A
read x node = lifted (x, node)

-- A write whose exceptions go on.
abbrev pub emitting : World → WriteCall → Act Receipt
emitting w call node = lifted (emit w node call)

-- `column or other`
abbrev pub text_or : String → Json → String
text_or other (text s) = if s == "" then other else s
text_or other _ = other

-- `json.loads(column) if column else default`
unfoldable pub loaded : Reader → Json → Json → Attempt Json
loaded p default null = returned default
loaded p default (text s) = if s == "" then returned default else p.loads s
loaded p default _ = raised type_error

unfoldable pub held_record : String → String → String → Fields → String → String → Json → Fields
held_record id op authority parameters jurisdiction anchor basis = field "id" (text id) (
    field "op" (text op) (
      field "authority" (text authority) (
        field "parameters" (obj parameters) (
          field "jurisdiction" (text jurisdiction) (
            field "anchor" (text anchor) (
              field "expiry_basis" basis
                (field "state" (text "HELD") (field "model_id" (text continuation_model) end))))))))

-- The height a million rows from now.
far_basis : Node → Json
far_basis node = obj (
    field "kind" (text "receipt_height")
      (field "value" (int (committed_height node.store.rows + 1000000)) end))

-- A deferral, with its arguments.
pub record Deferral : Type 0 where
  pub op : String
  pub authority : String
  pub parameters : Fields
  pub jurisdiction : String
  pub expiry_basis : Json
  pub anchor : Option String

abbrev pub anchor_of : Deferral → Node → String
anchor_of d node = elim d.anchor [ none ↦ stream_hash node.store.rows | some a ↦ a ]

abbrev pub deferring : Governance → Deferral → String
deferring c d = if d.authority == "" then c.authority else d.authority

unfoldable pub deferred_id : World → Governance → Deferral → Node → String
deferred_id w c d node =
    compute_continuation_id w.hash w.dumps (text d.op) (text (deferring c d)) (obj d.parameters)
      (text d.jurisdiction) (text (anchor_of d node))

unfoldable pub deferred_record : World → Governance → Deferral → Node → Fields
unfolding held_record far_basis deferred_id
deferred_record w c d node =
    held_record (deferred_id w c d node) d.op (deferring c d) d.parameters d.jurisdiction
      (anchor_of d node) (if is_null d.expiry_basis then far_basis node else d.expiry_basis)

unfoldable pub defer_call : World → Governance → Deferral → Node → WriteCall
unfolding deferred_record kernel_call
defer_call w c d node =
    record (kernel_call c d.op (deferring c d) d.parameters false d.op d.jurisdiction
      c.legend_hash) {
        intent = none;
        commit_terminal_outcome = true;
        terminal_outcome_override = some "DEFER";
        continuation = obj (deferred_record w c d node);
      }

unfoldable pub defer_operation : World → Governance → Deferral → Act String
unfolding defer_call
defer_operation w c d node =
    proceed (lifted (emit w node (defer_call w c d node))) (λ r. give (deferred_id w c d node))

-- A crossing, with its arguments.
pub record Crossing : Type 0 where
  pub op : String
  pub authority : String
  pub parameters : Fields
  pub bridge : Json
  pub bridge_verifier : BridgeVerifier
  pub jurisdiction : String
  pub failed : Bool
  pub intent : String

unfoldable pub bridge_call : Governance → Crossing → WriteCall
unfolding kernel_call
bridge_call c b =
    record (kernel_call c b.op (if b.authority == "" then c.authority else b.authority) b.parameters
      b.failed b.intent b.jurisdiction c.legend_hash) {
        commit_terminal_outcome = true;
        terminal_outcome_override = some "BRIDGE";
        bridge = b.bridge;
        bridge_verifier = b.bridge_verifier;
      }

unfoldable pub emit_bridge : World → Governance → Crossing → Act Receipt
unfolding bridge_call
emit_bridge w c b = emitting w (bridge_call c b)

-- The record of a transition: it carries the id, and has no anchor.
unfoldable pub marker_record : String → Receipt → String → Json → Json → Fields
marker_record id src state parameters basis = field "id" (text id) (
    field "op" src.continuation.continuation_op (
      field "authority" src.continuation.continuation_authority (
        field "parameters" parameters (
          field "jurisdiction" src.continuation.continuation_jurisdiction (
            field "expiry_basis" basis
              (field "state" (text state) (field "model_id" (text continuation_model) end)))))))

unfoldable pub marker_call : Governance → String → Receipt → Bool → String → Fields → WriteCall
unfolding kernel_call
marker_call c id src refuse reason cont =
    record (kernel_call c (if refuse then "gate_refuse" else "continuation_resolved")
      (text_or c.authority src.continuation.continuation_authority)
      (field "continuation_id" (text id) (field "reason" (text reason) end)) false reason
      (text_or "session" src.continuation.continuation_jurisdiction) c.legend_hash) {
        commit_terminal_outcome = true;
        continuation = obj cont;
      }

unfoldable pub continuation_marker :
    World → Governance → Reader → String → Receipt → String → Bool → String → Act Unit
unfolding marker_record marker_call loaded
continuation_marker w c p id src state refuse reason = do
  parameters ← read (loaded p (obj end) src.continuation.continuation_parameters)
  basis ← read (loaded p null src.continuation.continuation_expiry_basis)
  emitting w (marker_call c id src refuse reason (marker_record id src state parameters basis))
  give tt

-- What the caller of a resumption adds.
pub record Resumption : Type 0 where
  pub gate : Option Gate
  pub effect : Option Effect
  pub effect_atomicity : Option EffectAtomicity

-- The captured operation; the columns of a record that `defer_operation` wrote are texts.
unfoldable pub captured_request : Resumption → String → Receipt → Json → Request
captured_request q id src parameters = record {
  op = text_or "" src.continuation.continuation_op;
  authority = src.continuation.continuation_authority;
  parameters = parameters;
  gate = q.gate;
  effect = q.effect;
  effect_atomicity = q.effect_atomicity;
  idempotency_key = null;
  gate_margin = null;
  layer = "I";
  jurisdiction = text_or "" src.continuation.continuation_jurisdiction;
  governor_sig = none;
  warrant_basis = null;
  intent_ref = id;
  authority_set = null;
  capability_verdicts = [];
  required_locality = none;
}

unfoldable pub refuse_resumption :
    World → Governance → Reader → String → Receipt → String → String → Act Unit
unfolding continuation_marker
refuse_resumption w c p id src state reason =
    continuation_marker w c p id src state true reason >> throw (gate_refusal reason)

-- A held record that has not expired: the operation runs through the whole of `execute`.
unfoldable pub reenter : World → Governance → Reader → Resumption → String → Receipt → Act Unit
unfolding loaded captured_request continuation_marker
reenter w c p q id src = do
  parameters ← read (loaded p (obj end) src.continuation.continuation_parameters)
  execute w c (captured_request q id src parameters)
  continuation_marker w c p id src "RESOLVED" false "continuation-resolved"

unfoldable pub unless_expired :
    World → Governance → Reader → Resumption → String → Receipt → Bool → Act Unit
unfolding refuse_resumption reenter
unless_expired w c p q id src true = refuse_resumption w c p id src "EXPIRED" "continuation-expired"
unless_expired w c p q id src false = reenter w c p q id src

unfoldable pub is_held : Receipt → Bool
is_held src = json_eq src.continuation.continuation_state (text "HELD")

unfoldable pub resume_record :
    World → Governance → Reader → Resumption → String → Receipt → Bool → Act Unit
unfolding refuse_resumption unless_expired
resume_record w c p q id src true node =
    proceed
      (lifted (
        continuation_expired p src.continuation.continuation_expiry_basis
            (committed_height node.store.rows) [],
        node,
      ))
      (unless_expired w c p q id src)
resume_record w c p q id src false node =
    refuse_resumption w c p id src "REFUSED" "continuation-not-resumable" node

unfoldable pub resume_found :
    World → Governance → Reader → Resumption → String → Option Receipt → Act Unit
unfolding is_held resume_record
resume_found w c p q id none node = (threw (gate_refusal "continuation-not-resumable"), node)
resume_found w c p q id (some src) node = resume_record w c p q id src (is_held src) node

unfoldable pub resume_continuation : World → Governance → Reader → Resumption → String → Act Unit
unfolding resume_found
resume_continuation w c p q id node =
    resume_found w c p q id (find_continuation id node.store.rows) node
