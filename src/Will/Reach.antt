-- ===== src/Will/Reach.antt =====
-- What the production edges reach from the declared operations, and that the closure is that
-- (`WillChecker._closure`, ugk/will.py).
use ugk.Base.{
  ℕ, zero, suc, ◌+◌, ◌≤◌, ◌<◌, String, true, false, Option, none, List, [], ◌∷◌, ◌++◌, not, ◌&&◌,
  ◌||◌, ◌≡◌, ◌⊎◌, inl, inr, ◌↔◌, refl, subst, keep, length, arith, eq_iff, Bool-cases,
}
use ugk.Base.Names.{elem, unseen, unseen-lt, unseen_mono, unseen_nil}
use ugk.Base.Dict.{Dict}
use ugk.Will.Checker.{produced, fresh, within, closure_loop, all_targets, closure}

-- The edges lead from `a` to `b`.
abbrev pub Edge : Dict (List String) → String → String → Type 0
Edge [] a b = ⊥
Edge ((source, targets) ∷ edges) a b = ((elem b targets ≡ true) × (source ≡ a)) ⊎ Edge edges a b

pub data Reach (seed : List String) (edges : Dict (List String)) : String → Type 0 where
  seeded : {a : String} → elem a seed ≡ true → Reach seed edges a
  step : {a b : String} → Reach seed edges a → Edge edges a b → Reach seed edges b

pub elem-append : (a : String) (xs ys : List String) → elem a (xs ++ ys) ≡ (elem a xs || elem a ys)
unfolding elem
elem-append a [] ys = refl
elem-append a (x ∷ xs) ys = ground (arith, elem-append a xs ys)

elem-keep :
    (a : String) (xs seen : List String)
    → elem a (keep (λ op. not (elem op seen)) xs) ≡ (elem a xs && not (elem a seen))
unfolding elem
elem-keep a [] seen = refl
elem-keep a (x ∷ xs) seen = ground (arith, elem-keep a xs seen, eq_iff a x)

produced-Edge :
    (edges : Dict (List String)) (covered : List String) (b : String)
    → elem b (produced edges covered) ≡ true
    → (a : String) × (elem a covered ≡ true) × Edge edges a b
unfolding produced elem
produced-Edge [] covered b h = cc
produced-Edge ((s, ts) ∷ edges) covered b h = elim (Bool-cases (elem s covered)) [
  | inl e ↦ elim (Bool-cases (elem b ts)) [
    | inl t ↦ (s, e, inl (t, refl))
    | inr f ↦
        let rest = elem-append b ts (produced edges covered) in
        let (a, m, g) = produced-Edge edges covered b (ground arith) in (a, m, inr g)
  ]
  | inr e ↦ let (a, m, g) = produced-Edge edges covered b (ground arith) in (a, m, inr g)
]

Edge-produced :
    (edges : Dict (List String)) (covered : List String) (a b : String)
    → elem a covered ≡ true
    → Edge edges a b
    → elem b (produced edges covered) ≡ true
unfolding produced
Edge-produced [] covered a b m h = absurd h
Edge-produced ((s, ts) ∷ edges) covered a b m (inl (t, e)) =
    ground (arith, elem-append b ts (produced edges covered))
Edge-produced ((s, ts) ∷ edges) covered a b m (inr g) =
    ground (arith, Edge-produced edges covered a b m g, elem-append b ts (produced edges covered))

-- A round that adds a name leaves fewer of the targets unseen.
unseen-round :
    (covered ks : List String) (op : String) (ops : List String)
    → elem op covered ≡ false
    → elem op ks ≡ true
    → unseen (covered ++ op ∷ ops) ks < unseen covered ks
unfolding elem
unseen-round covered ks op ops h m =
    let more =
      unseen_mono (op ∷ covered) (covered ++ op ∷ ops) ks
        (λ a e. ground (arith, elem-append a covered (op ∷ ops), eq_iff a op, eq_iff op op)) in
    omega (arith, unseen-lt op covered ks h m, more)

produced-all :
    (edges : Dict (List String)) (covered : List String) (b : String)
    → elem b (produced edges covered) ≡ true
    → elem b (all_targets edges) ≡ true
unfolding produced all_targets elem
produced-all [] covered b h = h
produced-all ((s, ts) ∷ edges) covered b h = ground (
  arith,
  produced-all edges covered b,
  elem-append b ts (produced edges covered),
  elem-append b ts (all_targets edges),
)

-- What a round adds was not covered, and stands behind an edge.
fresh-new :
    (edges : Dict (List String)) (covered : List String) (b : String)
    → elem b (fresh edges covered) ≡ true
    → (elem b (produced edges covered) ≡ true) × (elem b covered ≡ false)
unfolding fresh
fresh-new edges covered b h = ground (arith, elem-keep b (produced edges covered) covered)

head-fresh :
    (edges : Dict (List String)) (covered : List String) (op : String) (ops : List String)
    → fresh edges covered ≡ op ∷ ops
    → elem op (fresh edges covered) ≡ true
unfolding elem
head-fresh edges covered op ops h = rw h (ground (arith, eq_iff op op))

-- The names are closed under the edges.
abbrev Closed : Dict (List String) → List String → Type 0
Closed edges covered =
    (a b : String) → elem a covered ≡ true → Edge edges a b → elem b covered ≡ true

no_fresh-Closed :
    (edges : Dict (List String)) (covered : List String)
    → fresh edges covered ≡ []
    → Closed edges covered
unfolding fresh elem
no_fresh-Closed edges covered h a b m g =
    let p = Edge-produced edges covered a b m g in
    let k = elem-keep b (produced edges covered) covered in
    let n : elem b (keep (λ op. not (elem op covered)) (produced edges covered)) ≡ false =
      rw h refl in
    ground arith

List-cases :
    (xs : List String) → (xs ≡ []) ⊎ ((x : String) × (rest : List String) × (xs ≡ x ∷ rest))
List-cases [] = inl refl
List-cases (x ∷ xs) = inr (x, xs, refl)

fresh-Reach :
    (seed : List String) (edges : Dict (List String)) (covered : List String)
    → ((a : String) → elem a covered ≡ true → Reach seed edges a)
    → (b : String) → elem b (fresh edges covered) ≡ true
    → Reach seed edges b
fresh-Reach seed edges covered h b m =
    let (a, e, g) = produced-Edge edges covered b (fresh-new edges covered b m).0 in step (h a e) g

append-Reach :
    (seed : List String) (edges : Dict (List String)) (xs ys : List String)
    → ((a : String) → elem a xs ≡ true → Reach seed edges a)
    → ((a : String) → elem a ys ≡ true → Reach seed edges a)
    → (a : String) → elem a (xs ++ ys) ≡ true
    → Reach seed edges a
append-Reach seed edges xs ys h k a m = elim (Bool-cases (elem a xs)) [
  | inl e ↦ h a e
  | inr e ↦ k a (ground (arith, elem-append a xs ys))
]

-- Whatever the depth, the loop gathers only what is reached.
closure_loop-Reach :
    (fuel : ℕ) (seed : List String) (edges : Dict (List String)) (depth : Option ℕ) (steps : ℕ)
    (covered : List String)
    → ((a : String) → elem a covered ≡ true → Reach seed edges a)
    → (a : String) → elem a (closure_loop fuel edges depth steps covered) ≡ true
    → Reach seed edges a
unfolding closure_loop
closure_loop-Reach zero seed edges depth steps covered h a m = h a m
closure_loop-Reach (suc fuel) seed edges depth steps covered h a m =
    elim (Bool-cases (within depth steps)) [
      | inr e ↦ h a (subst (λ (l : List String). elem a l ≡ true) (rw e refl) m)
      | inl e ↦ elim (List-cases (fresh edges covered)) [
        | inl n ↦ h a (subst (λ (l : List String). elem a l ≡ true) (rw (e, n) refl) m)
        | inr (op, ops, n) ↦
            closure_loop-Reach fuel seed edges depth (steps + 1) (covered ++ op ∷ ops)
              (append-Reach seed edges covered (op ∷ ops) h
                (λ b k. fresh-Reach seed edges covered h b (rw n k)))
              a (subst (λ (l : List String). elem a l ≡ true) (rw (e, n) refl) m)
      ]
    ]

-- With no depth and as many rounds as there are targets unseen, the loop ends closed.
pub record IsClosure (edges : Dict (List String)) (covered result : List String) : Type 0 where
  pub grown : (a : String) → elem a covered ≡ true → elem a result ≡ true
  pub closed : (a b : String) → elem a result ≡ true → Edge edges a b → elem b result ≡ true

closure_loop-IsClosure :
    (fuel : ℕ) (edges : Dict (List String)) (steps : ℕ) (covered : List String)
    → unseen covered (all_targets edges) < fuel
    → IsClosure edges covered (closure_loop fuel edges none steps covered)
unfolding closure_loop within
closure_loop-IsClosure zero edges steps covered h = absurd (omega arith)
closure_loop-IsClosure (suc fuel) edges steps covered h = elim (List-cases (fresh edges covered)) [
  | inl n ↦ rw n (record { grown = λ a m. m; closed = no_fresh-Closed edges covered n })
  | inr (op, ops, n) ↦
      let (p, u) = fresh-new edges covered op (head-fresh edges covered op ops n) in
      let fewer =
        unseen-round covered (all_targets edges) op ops u (produced-all edges covered op p) in
      let rest =
        closure_loop-IsClosure fuel edges (steps + 1) (covered ++ op ∷ ops) (omega arith) in
      rw n (record {
        grown = λ a m. rest.grown a (ground (arith, elem-append a covered (op ∷ ops)));
        closed = rest.closed;
      })
]

closed-Reach :
    (seed : List String) (edges : Dict (List String)) (result : List String)
    → IsClosure edges seed result
    → (a : String) → Reach seed edges a
    → elem a result ≡ true
closed-Reach seed edges result c a (seeded m) = c.grown a m
closed-Reach seed edges result c b (step {a} r g) =
    c.closed a b (closed-Reach seed edges result c a r) g

unseen-length : (covered ks : List String) → unseen covered ks ≤ length ks
unfolding elem
unseen-length covered ks =
    omega (arith, unseen_mono [] covered ks (λ a e. absurd (cc)), unseen_nil ks)

-- The closure of a set of operations, with no bound on the depth, has exactly the operations that
-- the production edges reach from the set.
pub elem-closure :
    (seed : List String) (edges : Dict (List String)) (op : String)
    → (elem op (closure seed edges none) ≡ true) ↔ Reach seed edges op
unfolding closure
elem-closure seed edges op = (
  closure_loop-Reach _ seed edges none 0 seed (λ a m. seeded m) op,
  closed-Reach seed edges _
      (closure_loop-IsClosure (suc (length (all_targets edges))) edges 0 seed
        (omega (arith, unseen-length seed (all_targets edges))))
      op,
)
