-- ===== src/Fga/Written.antt =====
-- Which of the receipts that the store builds are admitted (`UGKReceiptStore.write`,
-- ugk/storage/store.py; `aggregate`, ugk/fga/trace_vector.py).
use ugk.Base.{String, true, List, ◌≡◌, ◌≢◌, ◌↔◌, refl, sym, ap, ◌∙◌, subst, inr}
use ugk.Json.{Fields}
use ugk.Binding.Canon.{commit_s, commit_c, commit_m, commit_j}
use ugk.Store.Receipt.{Receipt, no_effect, no_reconciliation, no_continuation, no_bridge}
use ugk.Store.Body.{compute_h_body}
use ugk.Store.Attempt.{returned, >>=-returned}
use ugk.Store.World.{World, canonical_path_for, effective_capabilities}
use ugk.Store.Write.{WriteCall, Store, Commitments, commit}
use ugk.Store.Append.{prepare, receipt_of, body_of}
use ugk.Store.Prepared.{NoEmptyDigest, prepare-Stages, prepare-IsPrepared, h_r_of-some}
use ugk.Fga.Surface.{committed_surfaces}
use ugk.Fga.Trace.{FrameRef, vector_of, rederive_h_body}
use ugk.Fga.Aggregate.{admit, aggregate}
use ugk.Fga.Receipts.{IsCommitment, aggregate-vector_of}

-- A digest has the form of one.
abbrev pub IsHexDigest : World → Type 0
IsHexDigest w = (parts : List String) → w.hexdigest (w.hash.sha256 parts) ≡ true

-- Without effect, reconciliation, continuation and bridge columns.
pub record IsPlain (r : Receipt) : Type 0 where
  pub effect : r.effect ≡ no_effect
  pub reconciliation : r.reconciliation ≡ no_reconciliation
  pub continuation : r.continuation ≡ no_continuation
  pub bridge : r.bridge ≡ no_bridge

-- A text that is a digest of something.
abbrev IsDigest : World → String → Type 0
IsDigest w h = (parts : List String) × (h ≡ w.hash.sha256 parts)

IsDigest-IsCommitment :
    (w : World) (h : String)
    → NoEmptyDigest w.hash
    → IsHexDigest w
    → IsDigest w h
    → IsCommitment w.hash w.hexdigest h
IsDigest-IsCommitment w h n x (parts, e) = (λ z. n parts (sym e ∙ z), ap w.hexdigest e ∙ x parts)

record AreDigests (w : World) (h_s h_c h_m h_j : String) : Type 0 where
  state : IsDigest w h_s
  admissibility : IsDigest w h_c
  meaning : IsDigest w h_m
  locality : IsDigest w h_j

commit-AreDigests :
    (w : World) (store : Store) (call : WriteCall) (p : Fields) (c : Commitments)
    → commit w store call p ≡ returned c
    → AreDigests w c.h_s c.h_c c.h_m c.h_j
unfolding commit commit_s commit_c commit_m commit_j
commit-AreDigests w store call p c h =
    let (path, _, h1) = >>=-returned (canonical_path_for w call.authority) _ c h in
    let (caps, _, h2) = >>=-returned (effective_capabilities w path) _ c h1 in
    let (h_r, e, k) = h_r_of-some _ c _ h2 in
    subst (λ (c : Commitments). AreDigests w c.h_s c.h_c c.h_m c.h_j) k
      (record {
        state = (_, refl);
        admissibility = (_, refl);
        meaning = (_, refl);
        locality = (_, refl);
      })

prepare-AreDigests :
    (w : World) (store : Store) (call : WriteCall) (r : Receipt)
    → prepare w store call ≡ returned r
    → AreDigests w r.h_s r.h_c r.h_m r.h_j
unfolding receipt_of body_of
prepare-AreDigests w store call r h =
    let s = prepare-Stages w store call r h in
    let d = commit-AreDigests w store call s.resolved.parameters s.commitments s.commits in
    subst (λ (q : Receipt). AreDigests w q.h_s q.h_c q.h_m q.h_j) s.builds d

-- What the verifier leaves out of the body is not there.
rederive_h_body-IsPlain :
    (w : World) (r : Receipt) → IsPlain r → rederive_h_body w.hash r ≡ compute_h_body w.hash r.body
unfolding rederive_h_body
rederive_h_body-IsPlain w r p i = compute_h_body w.hash (record r.body {
  effect = sym p.effect i;
  reconciliation = sym p.reconciliation i;
  continuation = sym p.continuation i;
  bridge = sym p.bridge i;
})

compute_h_body-IsDigest : (w : World) (r : Receipt) → IsDigest w (compute_h_body w.hash r.body)
unfolding compute_h_body
compute_h_body-IsDigest w r = (_, refl)

-- The law and the legend are those of the call.
prepare-frame :
    (w : World) (store : Store) (call : WriteCall) (r : Receipt)
    → prepare w store call ≡ returned r
    → (r.law_hash ≡ call.law_hash) × (r.legend_hash ≡ call.legend_hash)
unfolding receipt_of body_of
prepare-frame w store call r h =
    let s = prepare-Stages w store call r h in
    subst (λ (q : Receipt). (q.law_hash ≡ call.law_hash) × (q.legend_hash ≡ call.legend_hash))
      s.builds (refl, refl)

-- A receipt that the store builds without effect, reconciliation, continuation and bridge columns is
-- admitted exactly under the law and the legend that it was written under, where every digest has
-- the form of one and is not empty.
pub aggregate-prepare :
    (w : World) (store : Store) (call : WriteCall) (r : Receipt) (frame : FrameRef)
    → NoEmptyDigest w.hash
    → IsHexDigest w
    → prepare w store call ≡ returned r
    → IsPlain r
    → (aggregate (vector_of w.hash w.hexdigest committed_surfaces r frame) ≡ admit)
      ↔ ((call.law_hash ≡ frame.law_hash) × (call.legend_hash ≡ frame.legend_hash))
aggregate-prepare w store call r frame n x h p =
    let (law, legend) = prepare-frame w store call r h in
    let (to, from) = aggregate-vector_of w.hash w.hexdigest r frame in
    let prepared = prepare-IsPrepared w store call r n h in
    let d = prepare-AreDigests w store call r h in
    let whole = IsDigest-IsCommitment w in
    (
      λ a. (sym law ∙ (to a).law, sym legend ∙ (to a).legend),
      λ (l, g). from (record {
        state = whole r.h_s n x d.state;
        state_rederives = sym prepared.state;
        admissibility = whole r.h_c n x d.admissibility;
        meaning = whole r.h_m n x d.meaning;
        locality = inr (whole r.h_j n x d.locality);
        body_rederives = rederive_h_body-IsPlain w r p ∙ sym prepared.body_digest;
        body_present =
            subst (λ b. b ≢ "") (sym prepared.body_digest)
              (whole _ n x (compute_h_body-IsDigest w r)).0;
        law = law ∙ l;
        legend = legend ∙ g;
      }),
    )
