-- ===== src/Store/Frontier.antt =====
-- Where the chain breaks (`last_valid_frontier`, ugk/storage/store.py).
use ugk.Base.{
  ℕ, String, true, false, Option, none, some, List, [], ◌∷◌, ◌++◌, ◌==◌, ◌||◌, not, ◌≡◌, ◌≢◌, ◌⊎◌,
  inl, inr, refl, ap, subst, arith, eq_iff, Bool-cases,
}
use ugk.Store.Receipt.{Receipt}
use ugk.Store.Chain.{
  genesis, frontier_from, last_valid_frontier, verify_segment, verify_stream_hash,
}
use ugk.Store.Linkage.{Linked}

-- A receipt that does not follow the root.
abbrev pub Breaks : String → Receipt → Type 0
Breaks prior r = (r.h_r ≡ "") ⊎ (r.parent_h_r ≢ prior)

-- A run that is linked from a parent, and the receipt behind it that does not follow.
pub record BrokenAfter (prior : String) (rows : List Receipt) (id : ℕ) : Type 0 where
  pub before : List Receipt
  pub last : Receipt
  pub bad : Receipt
  pub later : List Receipt
  pub split : rows ≡ before ++ last ∷ bad ∷ later
  pub named : last.receipt_id ≡ id
  pub linked : Linked prior (before ++ last ∷ []) last.h_r
  pub broken : Breaks last.h_r bad

break_tests :
    (prior : String) (r : Receipt)
    → ((r.h_r == "" || not (r.parent_h_r == prior)) ≡ true) × Breaks prior r
      ⊎ ((r.h_r == "" || not (r.parent_h_r == prior)) ≡ false)
        × (r.h_r ≢ "")
        × (r.parent_h_r ≡ prior)
break_tests prior r = elim (Bool-cases (r.h_r == "")) [
  | inl e ↦ inl (rw e refl, inl ((eq_iff r.h_r "").0 e))
  | inr e ↦ elim (Bool-cases (r.parent_h_r == prior)) [
    | inl f ↦ inr (
      rw (e, f) refl,
      (λ z. ground (arith, e, (eq_iff r.h_r "").1 z)),
      (eq_iff r.parent_h_r prior).0 f,
    )
    | inr f ↦ inl (rw (e, f) refl, inr (λ z. ground (arith, f, (eq_iff r.parent_h_r prior).1 z)))
  ]
]

some_inj : {a b : ℕ} → some a ≡ some b → a ≡ b
some_inj {a} e = ap (λ (o : Option ℕ). elim o [ some n ↦ n | none ↦ a ]) e

frontier_behind :
    (r : Receipt) (rows : List Receipt) (id : ℕ)
    → r.h_r ≢ ""
    → frontier_from (some r.receipt_id) rows r.h_r ≡ some id
    → BrokenAfter r.parent_h_r (r ∷ rows) id
unfolding frontier_from
frontier_behind r [] id n h = cc
frontier_behind r (y ∷ ys) id n h = elim (break_tests r.h_r y) [
  | inl (t, b) ↦ record {
    before = [];
    last = r;
    bad = y;
    later = ys;
    split = refl;
    named = some_inj (rw t at h);
    linked = (refl, n, refl);
    broken = b;
  }
  | inr (t, m, p) ↦
      let s = frontier_behind y ys id m (rw t at h) in
      record {
        before = r ∷ s.before;
        last = s.last;
        bad = s.bad;
        later = s.later;
        split = ap (λ l. r ∷ l) s.split;
        named = s.named;
        linked = (refl, n, subst (λ a. Linked a (s.before ++ s.last ∷ []) s.last.h_r) p s.linked);
        broken = s.broken;
      }
]

frontier_none :
    (i : ℕ) (rows : List Receipt) (prior : String)
    → frontier_from (some i) rows prior ≡ none
    → verify_segment rows prior ≡ true
unfolding frontier_from verify_segment
frontier_none i [] prior h = refl
frontier_none i (r ∷ rs) prior h = ground (arith, frontier_none r.receipt_id rs r.h_r)

-- Where a frontier is reported, it is the id of a row up to which the rows are linked from genesis,
-- and the next row does not follow. Where none is reported, the rows verify from genesis, or the
-- first of them does not follow genesis.
pub last_valid_frontier_lem :
    (rows : List Receipt)
    → ((id : ℕ) → last_valid_frontier rows ≡ some id → BrokenAfter genesis rows id)
      × (last_valid_frontier rows ≡ none
          → (verify_stream_hash rows none ≡ true)
            ⊎ ((r : Receipt) × (rs : List Receipt) × (rows ≡ r ∷ rs) × Breaks genesis r))
unfolding last_valid_frontier frontier_from verify_stream_hash verify_segment
last_valid_frontier_lem [] = (λ id h. cc, λ h. inl refl)
last_valid_frontier_lem (r ∷ rs) = elim (break_tests genesis r) [
  | inl (t, b) ↦ (λ id h. absurd (nothing (rw t at h)), λ h. inr (r, rs, refl, b))
  | inr (t, n, p) ↦ (
    λ id h. subst (λ a. BrokenAfter a (r ∷ rs) id) p (frontier_behind r rs id n (rw t at h)),
    λ h. inl (rw t (frontier_none r.receipt_id rs r.h_r (rw t at h))),
  )
]
  where
    nothing : {id : ℕ} → none ≢ some id
    nothing e = cc
