-- ===== src/Store/Verdicts.antt =====
-- What `verify_chain` reports (ugk/storage/store.py), of any rows and of the rows that `write` made.
use ugk.Base.{
  true, false, none, List, [], ◌∷◌, ◌++◌, ◌≡◌, ◌≢◌, ◌↔◌, refl, sym, ap, ◌∙◌, ◌⊎◌, inr, subst, arith,
  eq_iff, All, if◌then◌else◌,
}
use ugk.Crypto.{Hash}
use ugk.Binding.Canon.{commit_s}
use ugk.Store.Receipt.{Receipt, Body, ReconciliationColumns, no_reconciliation}
use ugk.Store.Body.{compute_h_body}
use ugk.Store.World.{World}
use ugk.Store.Write.{Store}
use ugk.Store.Chain.{
  genesis, stream_hash, verify_stream_hash, recompute_body, body_verifies, bodies_verify,
  verify_receipt_bodies, body_tampered, body_established, verify_chain,
}
use ugk.Store.Linkage.{Linked, verify_stream_hash-Linked, stream_hash_from-Linked}
use ugk.Store.Prepared.{NoEmptyDigest}
use ugk.Store.Growth.{IsConsistent, IsWritten}

-- A row whose stored digests re-derive.
abbrev pub IsIntact : Hash → Receipt → Type 0
IsIntact hash r =
    ((r.h_s ≡ "") ⊎ (commit_s hash r.op r.parameters ≡ r.h_s))
    × (r.h_body ≢ "")
    × (recompute_body hash r ≡ r.h_body)

body_verifies-IsIntact : (hash : Hash) (r : Receipt) → body_verifies hash r ≡ true ↔ IsIntact hash r
unfolding body_verifies
body_verifies-IsIntact hash r =
    let s = eq_iff (commit_s hash r.op r.parameters) r.h_s in
    let t = eq_iff r.h_s "" in
    let b = eq_iff (recompute_body hash r) r.h_body in
    let c = eq_iff r.h_body "" in
    (λ h. ground (arith, s, t, b, c), λ (p, q, i). ground (arith, s, t, b, c))

bodies_verify-All :
    (hash : Hash) (rows : List Receipt) → bodies_verify hash rows ≡ true ↔ All (IsIntact hash) rows
unfolding bodies_verify
bodies_verify-All hash [] = (λ h. tt, λ h. refl)
bodies_verify-All hash (r ∷ rs) =
    let here = body_verifies-IsIntact hash r in
    let later = bodies_verify-All hash rs in
    (λ h. (here.0 (both h).0, later.0 (both h).1), λ (p, q). rw (here.1 p) (later.1 q))
  where
    both :
        (if body_verifies hash r then bodies_verify hash rs else false) ≡ true
        → (body_verifies hash r ≡ true) × (bodies_verify hash rs ≡ true)
    both h = ground arith

verify_receipt_bodies-All :
    (hash : Hash) (rows : List Receipt)
    → verify_receipt_bodies hash rows none ≡ true ↔ All (IsIntact hash) rows
unfolding verify_receipt_bodies
verify_receipt_bodies-All hash [] = (λ h. tt, λ h. refl)
verify_receipt_bodies-All hash (r ∷ rs) = bodies_verify-All hash (r ∷ rs)

-- The chain is reported established to the BODY level exactly when its rows are linked from genesis
-- to the tip and in every row the state digest, where it is there, re-derives, and the body digest
-- is there and is the one recomputed.
pub verify_chain-established :
    (hash : Hash) (rows : List Receipt)
    → verify_chain hash rows none ≡ body_established
      ↔ (Linked genesis rows (stream_hash rows) × All (IsIntact hash) rows)
unfolding verify_chain
verify_chain-established hash rows =
    let l = verify_stream_hash-Linked rows in
    let b = verify_receipt_bodies-All hash rows in
    (λ h. (l.0 (both h).0, b.0 (both h).1), λ (p, q). rw (l.1 p, b.1 q) refl)
  where
    both :
        verify_chain hash rows none ≡ body_established
        → (verify_stream_hash rows none ≡ true) × (verify_receipt_bodies hash rows none ≡ true)
    both h = ground arith

-- A row with no reconciliation grade and no warrant snapshot.
abbrev pub Ungraded : Receipt → Type 0
Ungraded r = r.reconciliation ≡ no_reconciliation

recompute_body-Ungraded :
    (hash : Hash) (r : Receipt) → Ungraded r → recompute_body hash r ≡ compute_h_body hash r.body
unfolding recompute_body
recompute_body-Ungraded hash r e =
    ap (λ (g : ReconciliationColumns). compute_h_body hash (record r.body { reconciliation = g }))
      (sym e)

compute_h_body-nonempty : (hash : Hash) (b : Body) → NoEmptyDigest hash → compute_h_body hash b ≢ ""
unfolding compute_h_body
compute_h_body-nonempty hash b n = n _

IsIntact-rows :
    (w : World) (rows : List Receipt)
    → NoEmptyDigest w.hash
    → All (IsWritten w) rows
    → All Ungraded rows
    → All (IsIntact w.hash) rows
IsIntact-rows w [] n h u = tt
IsIntact-rows w (r ∷ rs) n ((s, b), h) (e, u) = (
  (
    inr (sym s),
    (λ z. compute_h_body-nonempty w.hash r.body n (sym b ∙ z)),
    recompute_body-Ungraded w.hash r e ∙ sym b,
  ),
  IsIntact-rows w rs n h u,
)

-- The rows of a consistent store with no reconciliation grade among them are reported established
-- to the BODY level.
pub verify_chain-written :
    (w : World) (store : Store)
    → NoEmptyDigest w.hash
    → IsConsistent w genesis store
    → All Ungraded store.rows
    → verify_chain w.hash store.rows none ≡ body_established
unfolding stream_hash
verify_chain-written w store n s u = (verify_chain-established w.hash store.rows).1 (
  subst (Linked genesis store.rows)
      (sym (stream_hash_from-Linked genesis store.prior_h_r store.rows s.linked)) s.linked,
  IsIntact-rows w store.rows n s.written u,
)

All-at {ℓ} :
    {A : Type 0} (P : A → Type ℓ) (before later : List A) (x : A)
    → All P (before ++ x ∷ later)
    → P x
All-at P [] later x (p, h) = p
All-at P (y ∷ ys) later x (p, h) = All-at P ys later x h

tampered :
    (hash : Hash) (rows : List Receipt)
    → verify_stream_hash rows none ≡ true
    → verify_receipt_bodies hash rows none ≢ true
    → verify_chain hash rows none ≡ body_tampered
unfolding verify_chain
tampered hash rows l n = ground arith

-- A consistent store with one row whose reconciliation columns change its body digest is reported
-- as tampered with, though no one touched it.
pub verify_chain-graded :
    (w : World) (store : Store) (before later : List Receipt) (r : Receipt)
    → IsConsistent w genesis store
    → store.rows ≡ before ++ r ∷ later
    → compute_h_body w.hash r.body ≢ recompute_body w.hash r
    → verify_chain w.hash store.rows none ≡ body_tampered
unfolding stream_hash
verify_chain-graded w store before later r s e d =
    let rows = store.rows in
    let linked = (verify_stream_hash-Linked rows).1 (
      subst (Linked genesis rows)
        (sym (stream_hash_from-Linked genesis store.prior_h_r rows s.linked)) s.linked) in
    let written = All-at (IsWritten w) before later r (subst (All (IsWritten w)) e s.written) in
    tampered w.hash rows linked (λ h.
      let intact =
        All-at (IsIntact w.hash) before later r
          (subst (All (IsIntact w.hash)) e ((verify_receipt_bodies-All w.hash rows).0 h)) in
      d (sym written.1 ∙ sym intact.2))
