-- ===== src/Kernel/Node.antt =====
-- The kernel's store with the faults that its writes will meet, and the outside effects that it has
-- caused (ugk/kernel.py).
use ugk.Base.{ℕ, String, Bool, true, false, Option, none, some, List, [], ◌∷◌}
use ugk.Base.Dict.{Dict}
use ugk.Governance.Warrant.{WarrantStore}
use ugk.Json.{Json, null, text, Fields, field, end}
use ugk.Store.Receipt.{Receipt}
use ugk.Store.Attempt.{
  Attempt, raised, returned, Exception, database_error, transaction_commit_error,
}
use ugk.Store.World.{World}
use ugk.Store.Write.{WriteCall, Store, Fault, no_fault}
use ugk.Store.Append.{write}

-- `faults` is consumed one a write, and no fault is met behind its end. `acts` has the rows that the
-- store showed at each call of an effect, the last first. `warrants` is the attached `WarrantStore`,
-- `refused` the counter of refusals by layer.
pub record Node : Type 0 where
  pub store : Store
  pub faults : List Fault
  pub acts : List (List Receipt)
  pub warrants : Option WarrantStore
  pub refused : Dict ℕ

-- How a call of an effect ends: it returns, raises `ExternalEffectNotPerformed`, or raises something
-- else (but not the store's `TransactionCommitError`).
pub data Ending : Type 0 where
  performed not_performed ambiguous : Ending

-- An effect is the caller's function: it may do anything to the store.
abbrev pub Effect : Type 0
Effect = Store → Ending × Store

pub data KernelError : Type 0 where
  store_error : Exception → KernelError
  terminal_write_exhausted : KernelError
  effect_not_performed : KernelError
  effect_failed : KernelError
  protocol_error : String → KernelError
  kernel_internal_op : KernelError
  governance_not_founded : KernelError
  governor_signature_required : KernelError
  undeclared_op : KernelError
  gate_refusal : String → KernelError
  reconciliation_refused : String → KernelError
  compensation_refused : String → KernelError

pub data Outcome (A : Type 0) : Type 0 where
  gave : A → Outcome A
  threw : KernelError → Outcome A

-- An operation of the kernel, and a chain of them that ends where one throws.
abbrev pub Act : Type 0 → Type 0
Act A = Node → Outcome A × Node

unfoldable pub proceed : {A B : Type 0} → Outcome A × Node → (A → Act B) → Outcome B × Node
proceed (gave a, node) f = f a node
proceed (threw e, node) f = (threw e, node)

infixl 5 ◌>>=◌ ◌>>◌
abbrev pub ◌>>=◌ : {A B : Type 0} → Act A → (A → Act B) → Act B
◌>>=◌ m f node = proceed (m node) f

abbrev pub ◌>>◌ : {A B : Type 0} → Act A → Act B → Act B
m >> k = m >>= λ _. k

abbrev pub give : {A : Type 0} → A → Act A
give a node = (gave a, node)

abbrev pub throw : {A : Type 0} → KernelError → Act A
throw e node = (threw e, node)

-- The model's database errors are those of a busy store.
unfoldable pub is_retryable : Exception → Bool
is_retryable database_error = true
is_retryable transaction_commit_error = true
is_retryable _ = false

abbrev pub first_fault : List Fault → Fault
first_fault [] = no_fault
first_fault (f ∷ fs) = f

abbrev pub rest_faults : List Fault → List Fault
rest_faults [] = []
rest_faults (f ∷ fs) = fs

after_write : Node → Attempt Receipt × Store → Attempt Receipt × Node
after_write node (result, store) =
    (result, record node { store = store; faults = rest_faults node.faults })

-- One write of the kernel.
unfoldable pub emit : World → Node → WriteCall → Attempt Receipt × Node
unfolding after_write
emit w node call = after_write node (write w (first_fault node.faults) node.store call)

-- The arguments that every receipt of one trail shares.
pub record Trail : Type 0 where
  pub op : String
  pub authority : String
  pub parameters : Fields
  pub idempotency_key : Json
  pub jurisdiction : String
  pub intent_ref : String
  pub warrant_id : String
  pub session_dkn : String
  pub law_hash : String
  pub legend_hash : String
  pub now : Json

abbrev pub text_or_null : Option String → Json
text_or_null none = null
text_or_null (some x) = text x

-- A write where an exception of the store is the kernel's.
unfoldable pub lifted : {A : Type 0} → Attempt A × Node → Outcome A × Node
lifted (returned a, node) = (gave a, node)
lifted (raised e, node) = (threw (store_error e), node)

-- The references of a phase receipt; the first four are columns of every trail, the last two of the
-- compensation arc.
pub record Refs : Type 0 where
  pub prepare_ref : Option String
  pub gate_admit_ref : Option String
  pub abort_reason : Option String
  pub compensate_ref : Option String
  pub compensation_idempotency_key : Json

abbrev pub no_refs : Refs
no_refs = record {
  prepare_ref = none;
  gate_admit_ref = none;
  abort_reason = none;
  compensate_ref = none;
  compensation_idempotency_key = null;
}

-- A write with the arguments that a trail shares.
phase_call : Trail → Bool → Fields → WriteCall
phase_call t failed columns = record {
  op = t.op;
  authority = t.authority;
  parameters = t.parameters;
  failed = failed;
  intent = some t.op;
  jurisdiction = t.jurisdiction;
  confidence = "high";
  session_dkn = t.session_dkn;
  law_hash = t.law_hash;
  legend_hash = t.legend_hash;
  warrant_id = t.warrant_id;
  intent_ref = t.intent_ref;
  commit_terminal_outcome = false;
  terminal_outcome_override = none;
  commit_capability_evidence = false;
  capability_evidence = none;
  effect_columns = some columns;
  reconciliation_grade = null;
  reconciliation_warrant_snapshot = null;
  continuation = null;
  bridge = null;
  bridge_verifier = none;
  now = t.now;
}

-- The call that `_emit_irreversible` makes.
unfoldable pub irreversible_call : Trail → String → Bool → Refs → WriteCall
unfolding phase_call
irreversible_call t phase failed refs = phase_call t failed (
    field "effect_atomicity" (text "external_irreversible") (
      field "effect_phase" (text phase) (
        field "effect_idempotency_key" t.idempotency_key (
          field "effect_gate_admit_ref" (text_or_null refs.gate_admit_ref) (
            field "effect_prepare_ref" (text_or_null refs.prepare_ref)
              (field "effect_abort_reason" (text_or_null refs.abort_reason) end))))))

-- The call that `_emit_reversible` makes.
unfoldable pub reversible_call : Trail → String → Bool → Refs → WriteCall
unfolding phase_call
reversible_call t phase failed refs = phase_call t failed (
    field "effect_atomicity" (text "external_reversible") (
      field "effect_phase" (text phase) (
        field "effect_idempotency_key" t.idempotency_key (
          field "effect_gate_admit_ref" (text_or_null refs.gate_admit_ref) (
            field "effect_prepare_ref" (text_or_null refs.prepare_ref) (
              field "effect_compensate_ref" (text_or_null refs.compensate_ref) (
                field "effect_compensation_idempotency_key" refs.compensation_idempotency_key
                  (field "effect_abort_reason" (text_or_null refs.abort_reason) end))))))))
