-- ===== src/Kernel/Atomic.antt =====
-- The seam of PURE and STORE_LOCAL effects (`execute`, `_emit_effect_abort`, ugk/kernel.py).
use ugk.Base.{
  ◌+◌, String, Bool, true, false, List, [], ◌∷◌, ◌++◌, ◌≡◌, ◌⊎◌, inl, inr, refl, ap, sym, ◌∙◌,
  subst,
}
use ugk.Store.Receipt.{Receipt}
use ugk.Store.Attempt.{Attempt, raised, returned, Exception}
use ugk.Store.World.{World}
use ugk.Store.Write.{WriteCall, Store, Fault}
use ugk.Store.Append.{insert, advance}
use ugk.Store.Prepared.{prepare-call}
use ugk.Store.Sealing.{write-returned}
use ugk.Store.Epoch.{transaction, rolled_back, close_transaction}
use ugk.Kernel.Node.{
  Node, Effect, Ending, performed, not_performed, ambiguous, Outcome, gave, threw, KernelError,
  emit, lifted, proceed, first_fault, rest_faults, store_error,
}
use ugk.Kernel.Request.{Governance, Request, EffectAtomicity}
use ugk.Kernel.Preflight.{Accepted}
use ugk.Kernel.Admit.{Admission, success_call}
use ugk.Store.Rows.{Grown}
use ugk.Kernel.Rows.{emit-rows}
use ugk.Kernel.Execute.{
  seam_receipt, after_seam, run_seam, execute_seam, abort_call, abort_reason, release_fails,
}

-- The store that the effect of a seam is called on.
abbrev pub opened : Store → Store
opened store = record store { txn_depth = store.txn_depth + 1 }

-- The whole outcome stands: the effect's rows, and its success receipt behind them.
pub record Stands (op : String) (effect : Effect) (before after : Store) : Type 0 where
  pub ended : (effect (opened before)).0 ≡ performed
  pub success : Receipt
  pub op_of : success.op ≡ op
  pub not_failed : success.failed ≡ false
  pub rows : after.rows ≡ (effect (opened before)).1.rows ++ success ∷ []

-- What a transaction around the seam's body leaves.
abbrev SeamEnd : String → Effect → Store → Attempt Receipt × Store → Type 0
SeamEnd op effect before x =
    ((e : Exception) × (x.0 ≡ raised e) × (x.1.rows ≡ before.rows))
    ⊎ ((r : Receipt) × (x.0 ≡ returned r) × Stands op effect before x.1)

close-SeamEnd :
    (op : String) (effect : Effect) (fails : Bool) (before : Store) (x : Attempt Receipt × Store)
    → ((r : Receipt) → x.0 ≡ returned r → Stands op effect before x.1)
    → SeamEnd op effect before
        (close_transaction (record { release = fails; rollback = false }) before x)
unfolding close_transaction rolled_back
close-SeamEnd op effect fails before (raised e, after) h = inl (_, refl, refl)
close-SeamEnd op effect true before (returned r, after) h = inl (_, refl, refl)
close-SeamEnd op effect false before (returned r, after) h =
    let s = h r refl in
    inr (
      r,
      refl,
      record {
        ended = s.ended;
        success = s.success;
        op_of = s.op_of;
        not_failed = s.not_failed;
        rows = s.rows;
      },
    )

receipt-Stands :
    (w : World) (fault : Fault) (call : WriteCall) (effect : Effect) (before : Store)
    (x : Ending × Store)
    → effect (opened before) ≡ x
    → call.failed ≡ false
    → (r : Receipt) → (seam_receipt w fault call x).0 ≡ returned r
    → Stands call.op effect before (seam_receipt w fault call x).1
unfolding seam_receipt insert advance
receipt-Stands w fault call effect before (performed, after) e f r h =
    let (p, built, done) = write-returned w fault after call r h in
    let (o, k) = prepare-call w after call p built in
    record {
      ended = ap (λ (y : Ending × Store). y.0) e;
      success = p;
      op_of = o;
      not_failed = k ∙ f;
      rows =
          ap (λ (y : Attempt Receipt × Store). y.1.rows) done
          ∙ sym (ap (λ (y : Ending × Store). y.1.rows ++ p ∷ []) e);
    }
receipt-Stands w fault call effect before (not_performed, after) e f r h = absurd (cc)
receipt-Stands w fault call effect before (ambiguous, after) e f r h = absurd (cc)

run_seam-SeamEnd :
    (w : World) (effect : Effect) (call : WriteCall) (node : Node)
    → call.failed ≡ false
    → SeamEnd call.op effect node.store
        ((run_seam w effect call node).0, (run_seam w effect call node).1.store)
unfolding run_seam transaction
run_seam-SeamEnd w effect call node f =
    let s = opened node.store in
    close-SeamEnd call.op effect (release_fails (first_fault (rest_faults node.faults))) node.store
      (seam_receipt w (first_fault node.faults) call (effect s))
      (receipt-Stands w (first_fault node.faults) call effect node.store (effect s) refl f)

recorded-threw :
    {A : Type 0} (x : Attempt Receipt × Node) (e : KernelError)
    → (d : KernelError) × ((proceed {B = A} (lifted x) (λ r n. (threw e, n))).0 ≡ threw d)
      × ((proceed {B = A} (lifted x) (λ r n. (threw e, n))).1 ≡ x.1)
unfolding proceed lifted
recorded-threw (returned r, n) e = (e, refl, refl)
recorded-threw (raised d, n) e = (store_error d, refl, refl)

-- The whole outcome stands, or the rows are those from before, with at most the abort behind them.
abbrev pub AllOrAbort : String → Effect → Node → Outcome Unit × Node → Type 0
AllOrAbort op effect node x =
    ((x.0 ≡ gave tt) × Stands op effect node.store x.1.store)
    ⊎ ((e : KernelError) × (x.0 ≡ threw e) × Grown op true node.store.rows x.1.store.rows)

after_seam-AllOrAbort :
    (w : World) (c : Governance) (q : Request) (a : Accepted) (m : Admission)
    (kind : EffectAtomicity) (effect : Effect) (node : Node) (x : Attempt Receipt × Node)
    → SeamEnd q.op effect node.store (x.0, x.1.store)
    → AllOrAbort q.op effect node (after_seam w c q a m kind x)
unfolding after_seam
after_seam-AllOrAbort w c q a m kind effect node (returned r, n) (inl (e, h, rows)) = absurd (cc)
after_seam-AllOrAbort w c q a m kind effect node (returned r, n) (inr (s, h, stands)) =
    inl (refl, stands)
after_seam-AllOrAbort w c q a m kind effect node (raised e, n) (inr (s, h, stands)) = absurd (cc)
after_seam-AllOrAbort w c q a m kind effect node (raised e, n) (inl (d, h, rows)) =
    let call = abort_call c q a m kind (abort_reason e) in
    let (error, t, same) = recorded-threw {A = Unit {0}} (emit w n call) _ in
    let grown = emit-rows w n call in
    let moved =
      subst (λ (l : List Receipt). Grown q.op true l (emit w n call).1.store.rows) rows grown in
    inr (
      error,
      t,
      subst (λ (k : Node). Grown q.op true node.store.rows k.store.rows) (sym same) moved,
    )

-- A PURE or STORE_LOCAL effect returns only with its whole outcome, the rows of the effect and the
-- success receipt behind them; otherwise an error is thrown and the rows are those from before, with
-- at most a failed receipt of the operation behind them, the abort. This holds whatever fails: the
-- effect, the write of the receipt, the release of the savepoint or the write of the abort.
pub execute_seam-AllOrAbort :
    (w : World) (c : Governance) (q : Request) (a : Accepted) (m : Admission)
    (kind : EffectAtomicity) (effect : Effect) (node : Node)
    → AllOrAbort q.op effect node (execute_seam w c q a m kind effect node)
unfolding execute_seam success_call
execute_seam-AllOrAbort w c q a m kind effect node =
    let call = success_call c q a m in
    after_seam-AllOrAbort w c q a m kind effect node (run_seam w effect call node)
      (run_seam-SeamEnd w effect call node refl)
