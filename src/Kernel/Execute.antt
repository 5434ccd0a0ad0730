-- ===== src/Kernel/Execute.antt =====
-- `execute` behind the admission: the classes of effects (`_emit_effect_abort`, `execute`,
-- ugk/kernel.py).
use ugk.Base.{String, Bool, true, false, Option, none, some, ◌∷◌}
use ugk.Json.{bool, text, end, field, set}
use ugk.Store.Receipt.{Receipt}
use ugk.Store.Attempt.{
  Attempt, raised, returned, Exception, transaction_commit_error, external_effect_not_performed,
  effect_error,
}
use ugk.Store.World.{World}
use ugk.Store.Write.{WriteCall, Store, Fault, at_commit}
use ugk.Store.Append.{write}
use ugk.Store.Epoch.{transaction}
use ugk.Kernel.Node.{
  Node, Effect, Ending, performed, not_performed, ambiguous, Outcome, gave, threw, KernelError,
  store_error, effect_not_performed, effect_failed, Act, ◌>>=◌, proceed, emit, lifted, first_fault,
  rest_faults,
}
use ugk.Kernel.Irreversible.{act, execute_external_irreversible, execute_external_reversible}
use ugk.Kernel.Request.{
  Governance, Request, EffectAtomicity, pure, store_local, external_reversible,
  external_irreversible, non_atomic, kernel_call,
}
use ugk.Kernel.Preflight.{Accepted, preflight}
use ugk.Kernel.Horizon.{horizon}
use ugk.Kernel.Admit.{Admission, admit, warrant_step, success_call, trail_of, value_of}

-- The body of the seam: the effect, then the success receipt.
unfoldable pub seam_receipt : World → Fault → WriteCall → Ending × Store → Attempt Receipt × Store
seam_receipt w fault call (performed, store) = write w fault store call
seam_receipt w fault call (not_performed, store) = (raised external_effect_not_performed, store)
seam_receipt w fault call (ambiguous, store) = (raised effect_error, store)

abbrev pub release_fails : Fault → Bool
release_fails at_commit = true
release_fails _ = false

unfoldable pub abort_reason : Exception → String
abort_reason transaction_commit_error = "commit_release_failure"
abort_reason external_effect_not_performed = "effect_failure"
abort_reason effect_error = "effect_failure"
abort_reason _ = "success_receipt_failure"

-- The exception that reaches the caller.
unfoldable pub surfaced : Exception → KernelError
surfaced external_effect_not_performed = effect_not_performed
surfaced effect_error = effect_failed
surfaced e = store_error e

unfoldable pub abort_call :
    Governance → Request → Accepted → Admission → EffectAtomicity → String → WriteCall
unfolding kernel_call
abort_call c q a m kind reason =
    record (kernel_call c q.op a.authority (set "effect_aborted" (bool true) a.parameters) true q.op
      q.jurisdiction c.legend_hash) {
        intent_ref = m.intent_ref;
        effect_columns = some (
            field "effect_atomicity" (text (value_of kind)) (
              field "effect_abort_reason" (text reason)
                (field "effect_gate_admit_ref" (text m.admit_ref) end)));
      }

-- Behind the seam: an abort is recorded, and the exception goes on.
unfoldable pub after_seam :
    World
    → Governance
    → Request
    → Accepted
    → Admission
    → EffectAtomicity
    → Attempt Receipt × Node
    → Outcome Unit × Node
unfolding abort_call
after_seam w c q a m kind (returned r, node) = (gave tt, node)
after_seam w c q a m kind (raised e, node) =
    proceed (lifted (emit w node (abort_call c q a m kind (abort_reason e))))
      (λ r after. (threw (surfaced e), after))

-- The transaction of effect and success receipt. It takes the fault of the receipt's write and one
-- for the release of the savepoint; the rollback to it is taken to work.
unfoldable pub run_seam : World → Effect → WriteCall → Node → Attempt Receipt × Node
unfolding seam_receipt
run_seam w effect call node =
    let rest = rest_faults node.faults in
    let (result, store) =
      transaction (record { release = release_fails (first_fault rest); rollback = false })
        node.store (λ s. seam_receipt w (first_fault node.faults) call (effect s)) in
    (
      result,
      record node { store = store; faults = rest_faults rest; acts = node.store.rows ∷ node.acts },
    )

-- PURE and STORE_LOCAL.
unfoldable pub execute_seam :
    World → Governance → Request → Accepted → Admission → EffectAtomicity → Effect → Act Unit
unfolding run_seam after_seam
execute_seam w c q a m kind effect node =
    after_seam w c q a m kind (run_seam w effect (success_call c q a m) node)

-- The failure receipt of the legacy order.
unfoldable pub after_legacy :
    World → Governance → Request → Accepted → KernelError → Node → Outcome Unit × Node
after_legacy w c q a e node =
    proceed
      (lifted
        (emit w node (kernel_call c q.op a.authority a.parameters true q.op q.jurisdiction "")))
      (λ r after. (threw e, after))

unfoldable pub legacy_ending :
    World → Governance → Request → Accepted → Ending × Node → Outcome Unit × Node
unfolding after_legacy
legacy_ending w c q a (performed, node) = (gave tt, node)
legacy_ending w c q a (not_performed, node) = after_legacy w c q a effect_not_performed node
legacy_ending w c q a (ambiguous, node) = after_legacy w c q a effect_failed node

unfoldable pub legacy_effect : World → Governance → Request → Accepted → Option Effect → Act Unit
unfolding legacy_ending
legacy_effect w c q a none node = (gave tt, node)
legacy_effect w c q a (some effect) node = legacy_ending w c q a (act effect node)

-- NON_ATOMIC, and operations without an effect: the success receipt stands before the effect.
unfoldable pub execute_legacy :
    World → Governance → Request → Accepted → Admission → Option Effect → Act Unit
unfolding legacy_effect
execute_legacy w c q a m effect node =
    proceed (lifted (emit w node (success_call c q a m))) (λ r. legacy_effect w c q a effect)

unfoldable pub execute_class :
    World → Governance → Request → Accepted → Admission → Effect → Option EffectAtomicity → Act Unit
unfolding execute_seam execute_legacy
execute_class w c q a m effect (some external_reversible) =
    execute_external_reversible w (trail_of c q a m) effect m.admit_ref
execute_class w c q a m effect (some external_irreversible) =
    execute_external_irreversible w (trail_of c q a m) effect m.admit_ref
execute_class w c q a m effect (some pure) = execute_seam w c q a m pure effect
execute_class w c q a m effect (some store_local) = execute_seam w c q a m store_local effect
execute_class w c q a m effect (some non_atomic) = execute_legacy w c q a m (some effect)
execute_class w c q a m effect none = execute_legacy w c q a m (some effect)

-- What follows the admission, by the class of the effect.
unfoldable pub perform :
    World → Governance → Request → Accepted → Admission → Option Effect → Act Unit
unfolding execute_class
perform w c q a m none = execute_legacy w c q a m none
perform w c q a m (some effect) = execute_class w c q a m effect q.effect_atomicity

-- From the admission on, with the covering intent.
unfoldable pub admitted : World → Governance → Request → Accepted → String → Act Unit
unfolding perform
admitted w c q a intent_ref = do
  receipt ← admit w c q a
  warrant_id ← warrant_step w c q q.warrant_basis
  perform w c q a
      (record { intent_ref = intent_ref; admit_ref = receipt.h_r; warrant_id = warrant_id })
      q.effect

unfoldable pub governed : World → Governance → Request → Accepted → Act Unit
unfolding admitted
governed w c q a = do intent_ref ← horizon w c q a; admitted w c q a intent_ref

unfoldable pub execute : World → Governance → Request → Act Unit
unfolding governed
execute w c q node = proceed (preflight c q, node) (λ a. governed w c q a)
