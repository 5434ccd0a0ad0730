-- ===== src/Kernel/Order.antt =====
-- The order of receipts and effect (`_execute_external_irreversible`, ugk/kernel.py).
use ugk.Base.{
  ℕ, zero, suc, String, List, [], ◌∷◌, ◌++◌, ◌≡◌, ◌⊎◌, inl, inr, refl, ap, ◌∙◌, Bool-cases,
}
use ugk.Store.Receipt.{Receipt}
use ugk.Store.Attempt.{Attempt, raised, returned, Exception}
use ugk.Store.World.{World}
use ugk.Store.Write.{WriteCall, Store}
use ugk.Store.Append.{prepare, insert, advance}
use ugk.Store.Sealing.{write-returned}
use ugk.Kernel.Node.{
  Node, Effect, Ending, is_retryable, performed, not_performed, ambiguous, Outcome, gave, threw,
  emit, first_fault, Trail, irreversible_call, effect_not_performed, store_error,
}
use ugk.Kernel.Irreversible.{
  retry, emit_terminal, Phases, prepare_call, two_phase, conclude, act, after_effect, after_prepare,
  execute_external_irreversible, max_outcome_write_attempts,
}

pub emit-acts : (w : World) (node : Node) (call : WriteCall) → (emit w node call).1.acts ≡ node.acts
unfolding emit
emit-acts w node call = refl

retry-acts :
    (again : Node → Outcome Receipt × Node) (x : Attempt Receipt × Node)
    (acts : List (List Receipt))
    → ((node : Node) → (again node).1.acts ≡ node.acts)
    → x.1.acts ≡ acts
    → (retry again x).1.acts ≡ acts
unfolding retry
retry-acts again (returned r, node) acts h e = e
retry-acts again (raised x, node) acts h e = elim (Bool-cases (is_retryable x)) [
  | inl t ↦ rw (t, retry) (h node ∙ e)
  | inr f ↦ rw (f, retry) e
]

-- The retries of a terminal call no effect.
pub emit_terminal-acts :
    (n : ℕ) (w : World) (call : WriteCall) (node : Node)
    → (emit_terminal n w call node).1.acts ≡ node.acts
unfolding emit_terminal
emit_terminal-acts zero w call node = refl
emit_terminal-acts (suc n) w call node =
    retry-acts (emit_terminal n w call) (emit w node call) node.acts (emit_terminal-acts n w call)
      (emit-acts w node call)

pub conclude-acts :
    (result : Outcome Unit) (x : Outcome Receipt × Node) → (conclude result x).1.acts ≡ x.1.acts
unfolding conclude
conclude-acts result (gave r, node) = refl
conclude-acts result (threw e, node) = refl

after_effect-acts :
    (w : World) (phases : Phases) (ref : String) (x : Ending × Node)
    → (after_effect w phases ref x).1.acts ≡ x.1.acts
unfolding after_effect
after_effect-acts w phases ref (performed, node) =
    conclude-acts (gave tt) _ ∙ emit_terminal-acts max_outcome_write_attempts w _ node
after_effect-acts w phases ref (not_performed, node) =
    conclude-acts (threw effect_not_performed) _
    ∙ emit_terminal-acts max_outcome_write_attempts w _ node
after_effect-acts w phases ref (ambiguous, node) = refl

-- The trail behind the prepare: the effect is called once, with the prepare as the last row, and
-- where it ends ambiguously nothing more is written.
pub record ActsOnce (w : World) (phases : Phases) (effect : Effect) (admit_ref : String)
    (node after : Node) : Type 0 where
  pub called_on : Store
  pub prepared : Receipt
  pub built : prepare w node.store (prepare_call phases admit_ref) ≡ returned prepared
  pub shown : called_on.rows ≡ node.store.rows ++ prepared ∷ []
  pub called : after.acts ≡ (node.store.rows ++ prepared ∷ []) ∷ node.acts
  pub silent : (effect called_on).0 ≡ ambiguous → after.store ≡ (effect called_on).1

abbrev pub NotCalled : Node → Outcome Unit × Node → Type 0
NotCalled node x = (x.1.acts ≡ node.acts) × ((e : Exception) × (x.0 ≡ threw (store_error e)))

pub emit-returned :
    (w : World) (node : Node) (call : WriteCall) (q : Receipt)
    → (emit w node call).0 ≡ returned q
    → (p : Receipt) × (prepare w node.store call ≡ returned p)
      × ((emit w node call).1.store.rows ≡ node.store.rows ++ p ∷ [])
unfolding emit insert advance
emit-returned w node call q h =
    let (p, e, r) = write-returned w (first_fault node.faults) node.store call q h in
    (p, e, ap (λ (x : Attempt Receipt × Store). x.1.rows) r)

ambiguous_store :
    (w : World) (phases : Phases) (ref : String) (x : Ending × Node)
    → x.0 ≡ ambiguous
    → (after_effect w phases ref x).1.store ≡ x.1.store
unfolding after_effect
ambiguous_store w phases ref (performed, node) e = absurd (cc)
ambiguous_store w phases ref (not_performed, node) e = absurd (cc)
ambiguous_store w phases ref (ambiguous, node) e = refl

after_prepare-ActsOnce :
    (w : World) (phases : Phases) (effect : Effect) (admit_ref : String) (node : Node)
    (x : Attempt Receipt × Node)
    → x.1.acts ≡ node.acts
    → ((q : Receipt)
        → x.0 ≡ returned q
        → (p : Receipt) × (prepare w node.store (prepare_call phases admit_ref) ≡ returned p)
          × (x.1.store.rows ≡ node.store.rows ++ p ∷ []))
    → NotCalled node (after_prepare w phases effect x)
      ⊎ ActsOnce w phases effect admit_ref node (after_prepare w phases effect x).1
unfolding after_prepare act
after_prepare-ActsOnce w phases effect ref node (raised e, n) acts h = inl (acts, (e, refl))
after_prepare-ActsOnce w phases effect ref node (returned q, n) acts h =
    let (p, built, rows) = h q refl in
    let x = act effect n in
    inr (record {
      called_on = n.store;
      prepared = p;
      built = built;
      shown = rows;
      called =
          after_effect-acts w phases q.h_r x
          ∙ (ap (λ (l : List Receipt). l ∷ n.acts) rows
              ∙ ap (λ (a : List (List Receipt)). (node.store.rows ++ p ∷ []) ∷ a) acts);
      silent = λ e. ambiguous_store w phases q.h_r x e;
    })

-- An effect of either outside class is called at most once, and only when the last row of the store
-- is its prepare; where the prepare cannot be written it is not called, and where it ends ambiguously
-- no terminal is written. This holds whatever writes fail.
pub two_phase-ActsOnce :
    (w : World) (phases : Phases) (effect : Effect) (admit_ref : String) (node : Node)
    → NotCalled node (two_phase w phases effect admit_ref node)
      ⊎ ActsOnce w phases effect admit_ref node (two_phase w phases effect admit_ref node).1
unfolding two_phase
two_phase-ActsOnce w phases effect ref node =
    let call = prepare_call phases ref in
    after_prepare-ActsOnce w phases effect ref node (emit w node call) (emit-acts w node call)
      (emit-returned w node call)

-- An irreversible effect is called at most once, and only when the last row of the store is its
-- prepare; where the prepare cannot be written it is not called, and where its outcome is ambiguous
-- no terminal is written. This holds whatever writes fail.
pub execute_external_irreversible-ActsOnce :
    (w : World) (t : Trail) (effect : Effect) (admit_ref : String) (node : Node)
    → NotCalled node (execute_external_irreversible w t effect admit_ref node)
      ⊎ ActsOnce w
          (irreversible_call t)
          effect
          admit_ref
          node
          (execute_external_irreversible w t effect admit_ref node).1
unfolding execute_external_irreversible
execute_external_irreversible-ActsOnce w t effect ref node =
    two_phase-ActsOnce w (irreversible_call t) effect ref node
