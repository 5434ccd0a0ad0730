-- ===== src/Store/Linkage.antt =====
-- What a verified linkage says (`verify_stream_hash`, `_verify_segment`, ugk/storage/store.py).
use ugk.Base.{
  String, true, false, none, some, List, [], ◌∷◌, ◌++◌, ◌==◌, ◌≡◌, ◌≢◌, ◌↔◌, inl, inr, refl, sym,
  ap, subst, ◌∙◌, arith, eq_iff, Option-cases, String-cases, All, if◌then◌else◌,
}
use ugk.Store.Receipt.{Receipt}
use ugk.Store.Chain.{
  genesis, verify_segment, after_checkpoint, verify_stream_hash, stream_hash_from, stream_hash,
}

-- A run of receipts from a parent to a tip: each names the root of the one before, and none has an
-- empty root.
abbrev pub Linked : String → List Receipt → String → Type 0
Linked prior [] tip = prior ≡ tip
Linked prior (r ∷ rs) tip = (r.parent_h_r ≡ prior) × (r.h_r ≢ "") × Linked r.h_r rs tip

pub Linked-append :
    (a b c : String) (xs ys : List Receipt) → Linked a xs b → Linked b ys c → Linked a (xs ++ ys) c
Linked-append a b c [] ys p h = subst (λ t. Linked t ys c) (sym p) h
Linked-append a b c (x ∷ xs) ys (p, n, l) h = (p, n, Linked-append x.h_r b c xs ys l h)

nonempty_test : (x : String) → x ≢ "" → (x == "") ≡ false
nonempty_test x n = ground (arith, eq_iff x "")

-- The tip is the one that the last row shows.
pub stream_hash_from-Linked :
    (a b : String) (xs : List Receipt) → Linked a xs b → stream_hash_from a xs ≡ b
unfolding stream_hash_from
stream_hash_from-Linked a b [] p = p
stream_hash_from-Linked a b (x ∷ xs) (p, n, l) =
    rw (nonempty_test x.h_r n) (stream_hash_from-Linked x.h_r b xs l)

pub verify_segment-Linked :
    (a b : String) (xs : List Receipt) → Linked a xs b → verify_segment xs a ≡ true
unfolding verify_segment
verify_segment-Linked a b [] p = refl
verify_segment-Linked a b (x ∷ xs) (p, n, l) =
    ground (arith, eq_iff x.h_r "", eq_iff x.parent_h_r a, verify_segment-Linked x.h_r b xs l)

segment_head :
    (a : String) (x : Receipt) (xs : List Receipt)
    → verify_segment (x ∷ xs) a ≡ true
    → (x.parent_h_r ≡ a) × (x.h_r ≢ "") × (verify_segment xs x.h_r ≡ true)
unfolding verify_segment
segment_head a x xs h = ground (arith, eq_iff x.h_r "", eq_iff x.parent_h_r a)

pub Linked-verify_segment :
    (a : String) (xs : List Receipt)
    → verify_segment xs a ≡ true
    → Linked a xs (stream_hash_from a xs)
unfolding stream_hash_from
Linked-verify_segment a [] h = refl
Linked-verify_segment a (x ∷ xs) h =
    let (p, n, rest) = segment_head a x xs h in
    (p, n, (rw (nonempty_test x.h_r n) (Linked-verify_segment x.h_r xs rest)))

-- The rows verify from genesis exactly when each names the root of the one before it, the first
-- names genesis, none has an empty root, and the last root is the tip that the store reports.
pub verify_stream_hash-Linked :
    (rows : List Receipt)
    → verify_stream_hash rows none ≡ true ↔ Linked genesis rows (stream_hash rows)
unfolding verify_stream_hash stream_hash
verify_stream_hash-Linked [] = (λ h. refl, λ l. refl)
verify_stream_hash-Linked (r ∷ rs) = (
  Linked-verify_segment genesis (r ∷ rs),
  verify_segment-Linked genesis (stream_hash_from genesis (r ∷ rs)) (r ∷ rs),
)

-- Where the checkpoint stands: the first receipt with that root, and what is behind it.
pub record CheckpointAt (checkpoint : String) (rows later : List Receipt) : Type 0 where
  pub before : List Receipt
  pub boundary : Receipt
  pub split : rows ≡ before ++ boundary ∷ later
  pub root : boundary.h_r ≡ checkpoint
  pub first : All (λ (r : Receipt). r.h_r ≢ checkpoint) before

pub after_checkpoint-CheckpointAt :
    (checkpoint : String) (rows later : List Receipt)
    → after_checkpoint checkpoint rows ≡ some later
    → CheckpointAt checkpoint rows later
unfolding after_checkpoint
after_checkpoint-CheckpointAt c [] later h = ground arith
after_checkpoint-CheckpointAt c (r ∷ rs) later h = elim (String-cases r.h_r c) [
  | inl (t, e) ↦ record {
    before = [];
    boundary = r;
    split = ap (λ l. r ∷ l) (here t h);
    root = e;
    first = tt;
  }
  | inr (t, n) ↦
      let at = after_checkpoint-CheckpointAt c rs later (there t h) in
      record {
        before = r ∷ at.before;
        boundary = at.boundary;
        split = ap (λ l. r ∷ l) at.split;
        root = at.root;
        first = (n, at.first);
      }
]
  where
    here :
        (r.h_r == c) ≡ true
        → (if r.h_r == c then some rs else after_checkpoint c rs) ≡ some later
        → rs ≡ later
    here t h = ground arith

    there :
        (r.h_r == c) ≡ false
        → (if r.h_r == c then some rs else after_checkpoint c rs) ≡ some later
        → after_checkpoint c rs ≡ some later
    there t h = ground arith

pub CheckpointAt-after_checkpoint :
    (checkpoint : String) (before later : List Receipt) (boundary : Receipt)
    → boundary.h_r ≡ checkpoint
    → All (λ (r : Receipt). r.h_r ≢ checkpoint) before
    → after_checkpoint checkpoint (before ++ boundary ∷ later) ≡ some later
unfolding after_checkpoint
CheckpointAt-after_checkpoint c [] later b e f = ground (arith, eq_iff b.h_r c)
CheckpointAt-after_checkpoint c (r ∷ rs) later b e (n, f) =
    ground (arith, eq_iff r.h_r c, CheckpointAt-after_checkpoint c rs later b e f)

checkpoint_unfold :
    (checkpoint : String) (r : Receipt) (rs later : List Receipt)
    → after_checkpoint checkpoint (r ∷ rs) ≡ some later
    → verify_stream_hash (r ∷ rs) (some checkpoint) ≡ verify_segment later checkpoint
unfolding verify_stream_hash
checkpoint_unfold c r rs later h = rw (h, verify_stream_hash) refl

checkpoint_found :
    (checkpoint : String) (r : Receipt) (rs : List Receipt)
    → verify_stream_hash (r ∷ rs) (some checkpoint) ≡ true
    → (later : List Receipt) × (after_checkpoint checkpoint (r ∷ rs) ≡ some later)
      × (verify_segment later checkpoint ≡ true)
unfolding verify_stream_hash
checkpoint_found c r rs h = elim (Option-cases (after_checkpoint c (r ∷ rs))) [
  | inl e ↦ ground arith
  | inr (later, e) ↦ (later, e, sym (checkpoint_unfold c r rs later e) ∙ h)
]

-- From a checkpoint, a store with receipts verifies exactly when some receipt has the checkpoint
-- for its root and the receipts behind the first such one are linked from it; a checkpoint that no
-- receipt carries does not verify.
pub verify_stream_hash-CheckpointAt :
    (checkpoint : String) (rows : List Receipt)
    → rows ≢ []
    → verify_stream_hash rows (some checkpoint) ≡ true ↔ (
        (later : List Receipt) × CheckpointAt checkpoint rows later
        × Linked checkpoint later (stream_hash_from checkpoint later))
verify_stream_hash-CheckpointAt c [] n = elim (n refl) [ ]
verify_stream_hash-CheckpointAt c (r ∷ rs) n = (
  λ h.
      let (later, e, v) = checkpoint_found c r rs h in
      (later, after_checkpoint-CheckpointAt c (r ∷ rs) later e, Linked-verify_segment c later v),
  λ (later, at, l).
      let found =
        subst (λ rows. after_checkpoint c rows ≡ some later) (sym at.split)
          (CheckpointAt-after_checkpoint c at.before later at.boundary at.root at.first) in
      checkpoint_unfold c r rs later found
      ∙ verify_segment-Linked c (stream_hash_from c later) later l,
)
