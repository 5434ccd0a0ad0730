-- ===== src/Kernel/Offset.antt =====
-- The order of a compensation (`compensate_external_reversible`, ugk/kernel.py).
use ugk.Base.{
  String, false, Option, none, some, List, [], ◌∷◌, ◌++◌, ◌≡◌, ◌⊎◌, inl, inr, refl, ap, ◌∙◌,
  Bool-cases,
}
use ugk.Json.{Json, json_eq}
use ugk.Store.Receipt.{Receipt}
use ugk.Store.Attempt.{Attempt, raised, returned}
use ugk.Store.World.{World}
use ugk.Store.Write.{WriteCall}
use ugk.Store.Append.{prepare}
use ugk.Integrity.Reversible.{find_committed_forward}
use ugk.Kernel.Node.{
  Node, Ending, performed, not_performed, ambiguous, Outcome, gave, emit, Trail, reversible_call,
}
use ugk.Kernel.Irreversible.{act, max_outcome_write_attempts}
use ugk.Kernel.Order.{emit-returned, emit-acts, emit_terminal-acts, conclude-acts}
use ugk.Kernel.Request.{Governance}
use ugk.Kernel.Graded.{Listing}
use ugk.Kernel.Compensate.{
  Compensation, check_compensation, compensation_trail, compensation_refs, after_offset,
  after_compensate, compensate_forward, compensate_checked, compensate_external_reversible,
  failed_offset,
}

failed_offset-acts :
    (w : World) (t : Trail) (q : Compensation) (o : Outcome Unit) (node : Node)
    → (failed_offset w t q o node).1.acts ≡ node.acts
unfolding failed_offset
failed_offset-acts w t q o node =
    conclude-acts o _ ∙ emit_terminal-acts max_outcome_write_attempts w _ node

after_offset-acts :
    (w : World) (t : Trail) (q : Compensation) (x : Ending × Node)
    → (after_offset w t q x).1.acts ≡ x.1.acts
unfolding after_offset
after_offset-acts w t q (performed, node) =
    conclude-acts (gave tt) _ ∙ emit_terminal-acts max_outcome_write_attempts w _ node
after_offset-acts w t q (not_performed, node) = failed_offset-acts w t q _ node
after_offset-acts w t q (ambiguous, node) = failed_offset-acts w t q _ node

-- The call of the intent to offset.
abbrev pub compensate_call : Governance → Compensation → String → Json → WriteCall
compensate_call c q op key =
    reversible_call (compensation_trail c q op key) "compensate" false (compensation_refs q)

-- The offset is called once, of an effect that is committed, under a key of its own, and when the
-- last row is the intent to offset.
pub record OffsetsOnce (w : World) (c : Governance) (q : Compensation) (node after : Node)
    : Type 0 where
  pub op : String
  pub key : Json
  pub committed : find_committed_forward node.store.rows q.prepare_ref ≡ some (op, key)
  pub distinct : json_eq q.compensation_idempotency_key key ≡ false
  pub intent : Receipt
  pub built : prepare w node.store (compensate_call c q op key) ≡ returned intent
  pub called : after.acts ≡ (node.store.rows ++ intent ∷ []) ∷ node.acts

after_compensate-called :
    (w : World) (t : Trail) (q : Compensation) (node : Node) (call : WriteCall)
    (x : Attempt Receipt × Node)
    → x.1.acts ≡ node.acts
    → ((r : Receipt)
        → x.0 ≡ returned r
        → (p : Receipt) × (prepare w node.store call ≡ returned p)
          × (x.1.store.rows ≡ node.store.rows ++ p ∷ []))
    → ((after_compensate w t q x).1.acts ≡ node.acts)
      ⊎ ((p : Receipt) × (prepare w node.store call ≡ returned p)
          × ((after_compensate w t q x).1.acts ≡ (node.store.rows ++ p ∷ []) ∷ node.acts))
unfolding after_compensate act
after_compensate-called w t q node call (raised e, n) acts h = inl acts
after_compensate-called w t q node call (returned r, n) acts h =
    let (p, built, rows) = h r refl in
    inr (
      p,
      built,
      after_offset-acts w t q (act q.compensation_effect n)
          ∙ (ap (λ (l : List Receipt). l ∷ n.acts) rows
              ∙ ap (λ (a : List (List Receipt)). (node.store.rows ++ p ∷ []) ∷ a) acts),
    )

compensate_forward-OffsetsOnce :
    (w : World) (c : Governance) (q : Compensation) (o : Option (String × Json)) (node : Node)
    → find_committed_forward node.store.rows q.prepare_ref ≡ o
    → ((compensate_forward w c q o node).1.acts ≡ node.acts)
      ⊎ OffsetsOnce w c q node (compensate_forward w c q o node).1
unfolding compensate_forward
compensate_forward-OffsetsOnce w c q none node h = inl refl
compensate_forward-OffsetsOnce w c q (some (op, key)) node h =
    elim (Bool-cases (json_eq q.compensation_idempotency_key key)) [
      | inl e ↦ rw e (inl refl)
      | inr e ↦
          let call = compensate_call c q op key in
          let once =
            after_compensate-called w (compensation_trail c q op key) q node call (emit w node call)
              (emit-acts w node call) (emit-returned w node call) in
          rw e (elim once [
            | inl a ↦ inl a
            | inr (p, built, called) ↦ inr (record {
              op = op;
              key = key;
              committed = h;
              distinct = e;
              intent = p;
              built = built;
              called = called;
            })
          ])
    ]

compensate_checked-OffsetsOnce :
    (w : World) (c : Governance) (q : Compensation) (o : Option String) (node : Node)
    → ((compensate_checked w c q o node).1.acts ≡ node.acts)
      ⊎ OffsetsOnce w c q node (compensate_checked w c q o node).1
unfolding compensate_checked
compensate_checked-OffsetsOnce w c q (some reason) node = inl refl
compensate_checked-OffsetsOnce w c q none node =
    compensate_forward-OffsetsOnce w c q (find_committed_forward node.store.rows q.prepare_ref) node
      refl

-- The compensating effect is called at most once, and only for a forward effect that is committed and
-- may still be compensated, under a key that is not the forward one, and when the last row of the
-- store is the intent to offset. This holds whatever writes fail.
pub compensate_external_reversible-OffsetsOnce :
    (w : World) (c : Governance) (l : Listing) (q : Compensation) (node : Node)
    → ((compensate_external_reversible w c l q node).1.acts ≡ node.acts)
      ⊎ OffsetsOnce w c q node (compensate_external_reversible w c l q node).1
unfolding compensate_external_reversible
compensate_external_reversible-OffsetsOnce w c l q node =
    compensate_checked-OffsetsOnce w c q (check_compensation l q) node
