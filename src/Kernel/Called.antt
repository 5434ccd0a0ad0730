-- ===== src/Kernel/Called.antt =====
-- On what rows each class of effects is called (`execute`, ugk/kernel.py).
use ugk.Base.{
  String, Option, none, some, List, [], ◌∷◌, ◌++◌, ◌≡◌, ◌⊎◌, inl, inr, refl, ap, sym, ◌∙◌,
}
use mathlib.Core.List.{append_assoc, append-nil}
use ugk.Store.Receipt.{Receipt}
use ugk.Store.Attempt.{Attempt, raised, returned}
use ugk.Store.World.{World}
use ugk.Store.Write.{WriteCall}
use ugk.Kernel.Node.{
  Node, Effect, Ending, performed, not_performed, ambiguous, Outcome, gave, threw, KernelError, Act,
  proceed, emit, lifted, irreversible_call, reversible_call,
}
use ugk.Kernel.Irreversible.{
  Phases, act, two_phase, execute_external_irreversible, execute_external_reversible,
}
use ugk.Kernel.Order.{two_phase-ActsOnce, emit-returned, emit-acts}
use ugk.Kernel.Request.{
  Governance, Request, EffectAtomicity, pure, store_local, external_reversible,
  external_irreversible, non_atomic,
}
use ugk.Kernel.Preflight.{Accepted}
use ugk.Kernel.Admit.{Admission, success_call, trail_of}
use ugk.Kernel.Execute.{
  after_seam, run_seam, execute_seam, after_legacy, legacy_ending, legacy_effect, execute_legacy,
  execute_class, perform,
}

-- No effect is called, or one is, once, on a store that shows at least these rows.
abbrev pub Once : List Receipt → List (List Receipt) → List (List Receipt) → Type 0
Once rows before after =
    (after ≡ before) ⊎ ((rest : List Receipt) × (after ≡ (rows ++ rest) ∷ before))

pub proceed-acts :
    {A B : Type 0} (x : Outcome A × Node) (k : A → Act B)
    → ((a : A) (n : Node) → (k a n).1.acts ≡ n.acts)
    → (proceed x k).1.acts ≡ x.1.acts
unfolding proceed
proceed-acts (gave a, n) k h = h a n
proceed-acts (threw e, n) k h = refl

lifted-acts : {A : Type 0} (x : Attempt A × Node) → (lifted x).1.acts ≡ x.1.acts
unfolding lifted
lifted-acts (returned a, n) = refl
lifted-acts (raised e, n) = refl

-- A receipt that is written before an error goes on calls no effect.
recorded-acts :
    (w : World) (call : WriteCall) (e : KernelError) (node : Node)
    → (proceed {B = Unit {0}} (lifted (emit w node call)) (λ r n. (threw e, n))).1.acts ≡ node.acts
recorded-acts w call e node =
    proceed-acts {B = Unit {0}} (lifted (emit w node call)) (λ r n. (threw e, n)) (λ r n. refl)
    ∙ (lifted-acts (emit w node call) ∙ emit-acts w node call)

after_seam-acts :
    (w : World) (c : Governance) (q : Request) (a : Accepted) (m : Admission)
    (kind : EffectAtomicity) (x : Attempt Receipt × Node)
    → (after_seam w c q a m kind x).1.acts ≡ x.1.acts
unfolding after_seam
after_seam-acts w c q a m kind (returned r, n) = refl
after_seam-acts w c q a m kind (raised e, n) = recorded-acts w _ _ n

execute_seam-Once :
    (w : World) (c : Governance) (q : Request) (a : Accepted) (m : Admission)
    (kind : EffectAtomicity) (effect : Effect) (node : Node)
    → Once node.store.rows node.acts (execute_seam w c q a m kind effect node).1.acts
unfolding execute_seam run_seam
execute_seam-Once w c q a m kind effect node = inr (
  [],
  after_seam-acts w c q a m kind (run_seam w effect (success_call c q a m) node)
      ∙ ap (λ (l : List Receipt). l ∷ node.acts) (sym (append-nil node.store.rows)),
)

two_phase-Once :
    (w : World) (phases : Phases) (effect : Effect) (admit_ref : String) (node : Node)
    → Once node.store.rows node.acts (two_phase w phases effect admit_ref node).1.acts
two_phase-Once w phases effect admit_ref node =
    elim (two_phase-ActsOnce w phases effect admit_ref node) [
      | inl (acts, e) ↦ inl acts
      | inr once ↦ inr (once.prepared ∷ [], once.called)
    ]

legacy_ending-acts :
    (w : World) (c : Governance) (q : Request) (a : Accepted) (x : Ending × Node)
    → (legacy_ending w c q a x).1.acts ≡ x.1.acts
unfolding legacy_ending after_legacy
legacy_ending-acts w c q a (performed, n) = refl
legacy_ending-acts w c q a (not_performed, n) = recorded-acts w _ _ n
legacy_ending-acts w c q a (ambiguous, n) = recorded-acts w _ _ n

legacy_effect-Once :
    (w : World) (c : Governance) (q : Request) (a : Accepted) (o : Option Effect) (node : Node)
    → Once node.store.rows node.acts (legacy_effect w c q a o node).1.acts
unfolding legacy_effect act
legacy_effect-Once w c q a none node = inl refl
legacy_effect-Once w c q a (some effect) node = inr (
  [],
  legacy_ending-acts w c q a (act effect node)
      ∙ ap (λ (l : List Receipt). l ∷ node.acts) (sym (append-nil node.store.rows)),
)

-- No effect is called, or one is, once, on a store that shows these rows and behind them a row of
-- this kind.
abbrev pub Behind :
    (Receipt → Type 0) → List Receipt → List (List Receipt) → List (List Receipt) → Type 0
Behind P rows before after =
    (after ≡ before)
    ⊎ ((p : Receipt) × (rest : List Receipt) × P p × (after ≡ (rows ++ p ∷ rest) ∷ before))

-- Behind a write that returned, the store shows one row more.
pub after_write-Behind :
    (P : Receipt → Type 0) (rows : List Receipt) (acts : List (List Receipt))
    (x : Attempt Receipt × Node) (k : Receipt → Act Unit)
    → x.1.acts ≡ acts
    → ((q : Receipt) → x.0 ≡ returned q → (p : Receipt) × P p × (x.1.store.rows ≡ rows ++ p ∷ []))
    → ((q : Receipt) (n : Node) → Once n.store.rows n.acts (k q n).1.acts)
    → Behind P rows acts (proceed (lifted x) k).1.acts
unfolding proceed lifted
after_write-Behind P rows acts (raised e, n) k a h g = inl a
after_write-Behind P rows acts (returned q, n) k a h g =
    let (p, good, e) = h q refl in
    elim (g q n) [
      | inl same ↦ inl (same ∙ a)
      | inr (rest, called) ↦ inr (
        p,
        rest,
        good,
        called
            ∙ (ap (λ (l : List Receipt). (l ++ rest) ∷ n.acts) e
                ∙ (ap (λ (l : List Receipt). l ∷ n.acts) (append_assoc rows (p ∷ []) rest)
                    ∙ ap (λ (l : List (List Receipt)). (rows ++ p ∷ rest) ∷ l) a)),
      )
    ]

Behind-Once :
    (P : Receipt → Type 0) (rows : List Receipt) (before after : List (List Receipt))
    → Behind P rows before after
    → Once rows before after
Behind-Once P rows before after (inl e) = inl e
Behind-Once P rows before after (inr (p, rest, good, e)) = inr (p ∷ rest, e)

execute_legacy-Once :
    (w : World) (c : Governance) (q : Request) (a : Accepted) (m : Admission) (o : Option Effect)
    (node : Node)
    → Once node.store.rows node.acts (execute_legacy w c q a m o node).1.acts
unfolding execute_legacy
execute_legacy-Once w c q a m o node =
    let call = success_call c q a m in
    Behind-Once (λ r. Unit {0}) node.store.rows node.acts _
      (after_write-Behind (λ r. Unit {0}) node.store.rows node.acts (emit w node call) _
        (emit-acts w node call)
        (λ r e. let (p, built, rows) = emit-returned w node call r e in (p, tt, rows))
        (λ r n. legacy_effect-Once w c q a o n))

execute_class-Once :
    (w : World) (c : Governance) (q : Request) (a : Accepted) (m : Admission) (f : Effect)
    (kind : Option EffectAtomicity) (node : Node)
    → Once node.store.rows node.acts (execute_class w c q a m f kind node).1.acts
unfolding execute_class execute_external_reversible execute_external_irreversible
execute_class-Once w c q a m f (some external_reversible) node =
    two_phase-Once w (reversible_call (trail_of c q a m)) f m.admit_ref node
execute_class-Once w c q a m f (some external_irreversible) node =
    two_phase-Once w (irreversible_call (trail_of c q a m)) f m.admit_ref node
execute_class-Once w c q a m f (some pure) node = execute_seam-Once w c q a m pure f node
execute_class-Once w c q a m f (some store_local) node =
    execute_seam-Once w c q a m store_local f node
execute_class-Once w c q a m f (some non_atomic) node = execute_legacy-Once w c q a m (some f) node
execute_class-Once w c q a m f none node = execute_legacy-Once w c q a m (some f) node

pub perform-Once :
    (w : World) (c : Governance) (q : Request) (a : Accepted) (m : Admission) (o : Option Effect)
    (node : Node)
    → Once node.store.rows node.acts (perform w c q a m o node).1.acts
unfolding perform
perform-Once w c q a m none node = execute_legacy-Once w c q a m none node
perform-Once w c q a m (some f) node = execute_class-Once w c q a m f q.effect_atomicity node
