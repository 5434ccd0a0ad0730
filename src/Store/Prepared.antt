-- ===== src/Store/Prepared.antt =====
-- What every receipt that `write` builds has (`UGKReceiptStore.write`, ugk/storage/store.py).
use ugk.Base.{
  String, false, Option, none, some, List, [], ◌∷◌, ◌≡◌, ◌≢◌, refl, sym, ◌∙◌, ap, subst, arith, inl,
  inr, Option-cases,
}
use ugk.Json.{Fields}
use ugk.Crypto.{Hash}
use ugk.Binding.Canon.{commit_s}
use ugk.Binding.Merkle.{Leaf, encode_leaves, sort_leaves, merkle_root, compute_h_r, receipt_root}
use ugk.Store.Receipt.{
  Receipt, TerminalColumns, CapabilityColumns, ContinuationColumns, BridgeColumns,
}
use ugk.Store.Body.{compute_h_body}
use ugk.Store.Attempt.{returned, ◌>>=◌, >>=-returned}
use ugk.Store.World.{World, canonical_path_for, effective_capabilities}
use ugk.Store.Write.{
  WriteCall, Store, Resolved, Commitments, resolve, commit, terminal_of, capability_of,
  continuation_of, bridge_of, h_r_of,
}
use ugk.Store.Append.{build, prepare, receipt_of, body_of}

-- A digest is never the empty text.
abbrev pub NoEmptyDigest : Hash → Type 0
NoEmptyDigest hash = (parts : List String) → hash.sha256 parts ≢ ""

pub record IsPrepared (w : World) (store : Store) (call : WriteCall) (r : Receipt) : Type 0 where
  pub parent : r.parent_h_r ≡ store.prior_h_r
  pub id : r.receipt_id ≡ store.next_id
  pub root : r.h_r ≢ ""
  pub state : r.h_s ≡ commit_s w.hash r.op r.parameters
  pub body_digest : r.h_body ≡ compute_h_body w.hash r.body
  pub writable : store.read_only ≡ false

compute_h_r-receipt_root :
    (w : World) (leaves : List Leaf) (h_r : String)
    → compute_h_r w.hash w.tag_byte w.length_prefix leaves ≡ some h_r
    → (root : String) × (h_r ≡ receipt_root w.hash root)
unfolding compute_h_r
compute_h_r-receipt_root w leaves h_r h =
    elim (Option-cases
      (encode_leaves w.hash.is_digest w.tag_byte w.length_prefix (sort_leaves leaves))) [
        | inl e ↦ ground arith
        | inr (encoded, e) ↦ elim (Option-cases (merkle_root w.hash encoded)) [
          | inl f ↦ ground arith
          | inr (root, f) ↦ (root, (ground arith))
        ]
      ]

receipt_root-nonempty :
    (w : World) (root : String) → NoEmptyDigest w.hash → receipt_root w.hash root ≢ ""
unfolding receipt_root
receipt_root-nonempty w root n = n ("UGK-RECEIPT-ROOT-v1" ∷ "root.v1" ∷ root ∷ [])

pub h_r_of-some :
    (o : Option String) (c : Commitments) (k : String → Commitments)
    → (h_r_of o >>= λ h_r. returned (k h_r)) ≡ returned c
    → (h_r : String) × (o ≡ some h_r) × (k h_r ≡ c)
unfolding h_r_of
h_r_of-some (some h_r) c k h = (h_r, refl, (ground arith))
h_r_of-some none c k h = cc

-- The commitments: the state digest of these parameters, and a root that is not empty.
pub commit-root :
    (w : World) (store : Store) (call : WriteCall) (p : Fields) (c : Commitments)
    → NoEmptyDigest w.hash
    → commit w store call p ≡ returned c
    → (c.h_s ≡ commit_s w.hash call.op p) × (c.h_r ≢ "")
unfolding commit
commit-root w store call p c n h =
    let (path, _, h1) = >>=-returned (canonical_path_for w call.authority) _ c h in
    let (caps, _, h2) = >>=-returned (effective_capabilities w path) _ c h1 in
    let (h_r, e, k) = h_r_of-some _ c _ h2 in
    let (root, q) = compute_h_r-receipt_root w _ h_r e in
    (
      ap (λ (c : Commitments). c.h_s) (sym k),
      λ z. receipt_root-nonempty w root n (sym q ∙ ap (λ (c : Commitments). c.h_r) k ∙ z),
    )

writable_prepare :
    (w : World) (store : Store) (call : WriteCall) (r : Receipt)
    → prepare w store call ≡ returned r
    → (store.read_only ≡ false) × (build w store call ≡ returned r)
unfolding prepare
writable_prepare w store call r h = ground arith

-- What `write` computes before it inserts.
pub record Stages (w : World) (store : Store) (call : WriteCall) (r : Receipt) : Type 0 where
  pub resolved : Resolved
  pub commitments : Commitments
  pub terminal : TerminalColumns
  pub capability : CapabilityColumns
  pub continuation : ContinuationColumns
  pub bridge : BridgeColumns
  pub resolves : resolve call ≡ returned resolved
  pub commits : commit w store call resolved.parameters ≡ returned commitments
  pub carries : continuation_of w call ≡ returned continuation
  pub emits : terminal_of w call ≡ returned terminal
  pub builds :
      receipt_of w store.next_id
        (body_of w store call resolved commitments terminal capability continuation bridge)
      ≡ r

pub prepare-Stages :
    (w : World) (store : Store) (call : WriteCall) (r : Receipt)
    → prepare w store call ≡ returned r
    → Stages w store call r
unfolding build
prepare-Stages w store call r h =
    let (resolved, e1, h1) =
      >>=-returned (resolve call) _ r (writable_prepare w store call r h).1 in
    let (c, e2, h2) = >>=-returned (commit w store call resolved.parameters) _ r h1 in
    let (terminal, e3, h3) = >>=-returned (terminal_of w call) _ r h2 in
    let (capability, e4, h4) = >>=-returned (capability_of call) _ r h3 in
    let (continuation, e5, h5) = >>=-returned (continuation_of w call) _ r h4 in
    let (bridge, e6, h6) = >>=-returned (bridge_of call) _ r h5 in
    record {
      resolved = resolved;
      commitments = c;
      terminal = terminal;
      capability = capability;
      continuation = continuation;
      bridge = bridge;
      resolves = e1;
      commits = e2;
      carries = e5;
      emits = e3;
      builds = ground arith;
    }

pub prepare-IsPrepared :
    (w : World) (store : Store) (call : WriteCall) (r : Receipt)
    → NoEmptyDigest w.hash
    → prepare w store call ≡ returned r
    → IsPrepared w store call r
unfolding receipt_of body_of
prepare-IsPrepared w store call r n h =
    let s = prepare-Stages w store call r h in
    let c = commit-root w store call s.resolved.parameters s.commitments n s.commits in
    subst (IsPrepared w store call) s.builds (record {
      parent = refl;
      id = refl;
      root = c.1;
      state = c.0;
      body_digest = refl;
      writable = (writable_prepare w store call r h).0;
    })

-- The row has the operation and the status of the call.
pub prepare-call :
    (w : World) (store : Store) (call : WriteCall) (r : Receipt)
    → prepare w store call ≡ returned r
    → (r.op ≡ call.op) × (r.failed ≡ call.failed)
unfolding receipt_of body_of
prepare-call w store call r h =
    let s = prepare-Stages w store call r h in
    subst (λ (q : Receipt). (q.op ≡ call.op) × (q.failed ≡ call.failed)) s.builds (refl, refl)

-- The row has the continuation columns that the record of the call gives.
pub prepare-continuation :
    (w : World) (store : Store) (call : WriteCall) (r : Receipt)
    → prepare w store call ≡ returned r
    → continuation_of w call ≡ returned r.continuation
unfolding receipt_of body_of
prepare-continuation w store call r h =
    let s = prepare-Stages w store call r h in
    subst (λ (q : Receipt). continuation_of w call ≡ returned q.continuation) s.builds s.carries
