-- ===== src/Kernel/Irreversible.antt =====
-- The two-phase trail of an outside effect (`_emit_terminal_durable`,
-- `_execute_external_irreversible`, `_emit_reversible_terminal_durable`,
-- `_execute_external_reversible`, ugk/kernel.py). The two classes differ in the call that a phase
-- makes, and are otherwise the same code.
use ugk.Base.{ℕ, zero, suc, String, Bool, true, false, some, ◌∷◌}
use ugk.Store.Receipt.{Receipt}
use ugk.Store.Attempt.{Attempt, raised, returned}
use ugk.Store.World.{World}
use ugk.Store.Write.{WriteCall}
use ugk.Kernel.Node.{
  Node, Effect, Ending, performed, not_performed, ambiguous, store_error, terminal_write_exhausted,
  effect_not_performed, effect_failed, Outcome, gave, threw, is_retryable, emit, Trail, Refs,
  no_refs, irreversible_call, reversible_call,
}

-- `MAX_OUTCOME_WRITE_ATTEMPTS`
abbrev pub max_outcome_write_attempts : ℕ
max_outcome_write_attempts = 3

-- The loop of `_emit_terminal_durable`: an attempt, and what follows it.
unfoldable pub retry :
    (Node → Outcome Receipt × Node) → Attempt Receipt × Node → Outcome Receipt × Node
retry again (returned r, node) = (gave r, node)
retry again (raised e, node) = elim (is_retryable e) [
  | true ↦ again node
  | false ↦ (threw (store_error e), node)
]

unfoldable pub emit_terminal : ℕ → World → WriteCall → Node → Outcome Receipt × Node
unfolding retry
emit_terminal zero w call node = (threw terminal_write_exhausted, node)
emit_terminal (suc attempts) w call node =
    let again = emit_terminal attempts w call in retry again (emit w node call)

-- What is raised or returned behind a terminal that was written.
unfoldable pub conclude : Outcome Unit → Outcome Receipt × Node → Outcome Unit × Node
conclude result (gave r, node) = (result, node)
conclude result (threw e, node) = (threw e, node)

-- The effect is called, and the rows that stand in the store are noted.
unfoldable pub act : Effect → Node → Ending × Node
act effect node =
    let (ending, store) = effect node.store in
    (ending, record node { store = store; acts = node.store.rows ∷ node.acts })

-- The call of a phase.
abbrev pub Phases : Type 0
Phases = String → Bool → Refs → WriteCall

unfoldable pub after_effect : World → Phases → String → Ending × Node → Outcome Unit × Node
unfolding emit_terminal conclude
after_effect w phases prepare_ref (performed, node) = conclude (gave tt) (
    emit_terminal max_outcome_write_attempts w
      (phases "commit" false (record no_refs { prepare_ref = some prepare_ref })) node)
after_effect w phases prepare_ref (not_performed, node) = conclude (threw effect_not_performed) (
    emit_terminal max_outcome_write_attempts w
      (phases "abort" true (record no_refs {
        prepare_ref = some prepare_ref;
        abort_reason = some "external_effect_not_performed";
      }))
      node)
after_effect w phases prepare_ref (ambiguous, node) = (threw effect_failed, node)

unfoldable pub after_prepare :
    World → Phases → Effect → Attempt Receipt × Node → Outcome Unit × Node
unfolding after_effect act
after_prepare w phases effect (raised e, node) = (threw (store_error e), node)
after_prepare w phases effect (returned p, node) = after_effect w phases p.h_r (act effect node)

-- The call of the prepare.
abbrev pub prepare_call : Phases → String → WriteCall
prepare_call phases admit_ref =
    phases "prepare" false (record no_refs { gate_admit_ref = some admit_ref })

unfoldable pub two_phase : World → Phases → Effect → String → Node → Outcome Unit × Node
unfolding after_prepare
two_phase w phases effect admit_ref node =
    after_prepare w phases effect (emit w node (prepare_call phases admit_ref))

unfoldable pub execute_external_irreversible :
    World → Trail → Effect → String → Node → Outcome Unit × Node
unfolding two_phase
execute_external_irreversible w t effect admit_ref node =
    two_phase w (irreversible_call t) effect admit_ref node

unfoldable pub execute_external_reversible :
    World → Trail → Effect → String → Node → Outcome Unit × Node
unfolding two_phase
execute_external_reversible w t effect admit_ref node =
    two_phase w (reversible_call t) effect admit_ref node
