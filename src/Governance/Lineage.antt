-- ===== src/Governance/Lineage.antt =====
-- The lineage of a warrant (`WarrantStore.lineage_from`, ugk/governance/warrant.py).
use ugk.Base.{
  ℕ, zero, suc, ◌≤◌, String, true, false, none, some, List, [], ◌∷◌, ◌≡◌, ◌≢◌, ◌==◌, eq_iff, ◌||◌,
  ◌⊎◌, ◌↔◌, length, arith, inl, inr, refl, ap, sym, subst, Bool, Bool-cases, Option-cases,
  String-cases,
}
use ugk.Base.Names.{elem}
use ugk.Json.{Items}
use ugk.Governance.Warrant.{
  DecisionWarrant, WarrantStore, get_warrant, lineage_loop, lineage_from, genesis_warrant_hash,
}

-- Why a lineage ends: the depth is used up, the hash is blank or the genesis hash, it was met before,
-- or no warrant is stored under it.
abbrev pub Ends : (Items → Items) → WarrantStore → ℕ → List String → String → Type 0
Ends sort store depth seen current =
    (depth ≡ 0)
    ⊎ (current ≡ "")
    ⊎ (current ≡ genesis_warrant_hash)
    ⊎ (elem current seen ≡ true)
    ⊎ (get_warrant sort store current ≡ none)

-- Each warrant is stored under the hash that the one before it names as its prior, none is under the
-- blank or the genesis hash, no hash comes twice or is among those seen, and the last one is followed
-- by nothing for a reason.
abbrev pub IsLineage :
    (Items → Items) → WarrantStore → ℕ → List String → String → List DecisionWarrant → Type 0
IsLineage sort store depth seen current [] = Ends sort store depth seen current
IsLineage sort store depth seen current (w ∷ ws) =
    (rest : ℕ) × (depth ≡ suc rest)
    × (get_warrant sort store current ≡ some w)
    × (current ≢ "")
    × (current ≢ genesis_warrant_hash)
    × (elem current seen ≡ false)
    × IsLineage sort store rest (current ∷ seen) w.prior_warrant_hash ws

stopped :
    (depth : ℕ) (sort : Items → Items) (store : WarrantStore) (seen : List String)
    (current : String)
    → (current == "" || current == genesis_warrant_hash || elem current seen) ≡ true
    → Ends sort store depth seen current
stopped depth sort store seen current h = elim (String-cases current "") [
  | inl (t, e) ↦ inr (inl e)
  | inr (t, n) ↦ elim (String-cases current genesis_warrant_hash) [
    | inl (u, e) ↦ inr (inr (inl e))
    | inr (u, m) ↦ inr (inr (inr (inl (ground (arith, t, u, h)))))
  ]
]

lineage_loop-IsLineage :
    (depth : ℕ) (sort : Items → Items) (store : WarrantStore) (seen : List String)
    (current : String)
    → IsLineage sort store depth seen current (lineage_loop depth sort store seen current)
unfolding lineage_loop
lineage_loop-IsLineage zero sort store seen current = inl refl
lineage_loop-IsLineage (suc depth) sort store seen current =
    elim (Bool-cases (current == "" || current == genesis_warrant_hash || elem current seen)) [
      | inl e ↦ rw e (stopped (suc depth) sort store seen current e)
      | inr e ↦ elim (Option-cases (get_warrant sort store current)) [
        | inl n ↦ rw (e, n) (inr (inr (inr (inr n))))
        | inr (w, s) ↦
            rw (e, s)
              (
                depth,
                refl,
                s,
                (λ g. ground (arith, e, eq_iff current "")),
                (λ g. ground (arith, e, eq_iff current genesis_warrant_hash)),
                ground (arith, e),
                lineage_loop-IsLineage depth sort store (current ∷ seen) w.prior_warrant_hash,
              )
      ]
    ]

-- The test of the loop, but for the depth.
abbrev is_last : List String → String → Bool
is_last seen current = current == "" || current == genesis_warrant_hash || elem current seen

passed :
    (seen : List String) (current : String)
    → current ≢ ""
    → current ≢ genesis_warrant_hash
    → elem current seen ≡ false
    → is_last seen current ≡ false
passed seen current b g m =
    ground (arith, b, g, m, eq_iff current "", eq_iff current genesis_warrant_hash)

-- There is no other one.
IsLineage-lineage_loop :
    (depth : ℕ) (sort : Items → Items) (store : WarrantStore) (seen : List String)
    (current : String) (ws : List DecisionWarrant)
    → IsLineage sort store depth seen current ws
    → lineage_loop depth sort store seen current ≡ ws
unfolding lineage_loop
IsLineage-lineage_loop zero sort store seen current [] h = refl
IsLineage-lineage_loop zero sort store seen current (w ∷ ws) (rest, e, s, b, g, m, h) =
    absurd (omega arith)
IsLineage-lineage_loop (suc depth) sort store seen current [] h = elim h [
  | inl e ↦ absurd (omega arith)
  | inr (inl e) ↦ rw (blank e) refl
  | inr (inr (inl e)) ↦ rw (genesis e) refl
  | inr (inr (inr (inl e))) ↦ rw (seen_before e) refl
  | inr (inr (inr (inr e))) ↦ elim (Bool-cases (is_last seen current)) [
    | inl t ↦ rw t refl
    | inr t ↦ rw (t, e) refl
  ]
]
  where
    blank : current ≡ "" → is_last seen current ≡ true
    blank e = ground (arith, eq_iff current "")

    genesis : current ≡ genesis_warrant_hash → is_last seen current ≡ true
    genesis e = ground (arith, eq_iff current genesis_warrant_hash)

    seen_before : elem current seen ≡ true → is_last seen current ≡ true
    seen_before e = ground arith
IsLineage-lineage_loop (suc depth) sort store seen current (w ∷ ws) (rest, d, s, b, g, m, h) =
    let same : depth ≡ rest = omega arith in
    let ih = IsLineage-lineage_loop depth sort store (current ∷ seen) w.prior_warrant_hash ws (
      subst (λ (n : ℕ). IsLineage sort store n (current ∷ seen) w.prior_warrant_hash ws) (sym same)
        h) in
    rw (passed seen current b g m, s) (ap (λ l. w ∷ l) ih)

IsLineage-length :
    (depth : ℕ) (sort : Items → Items) (store : WarrantStore) (seen : List String)
    (current : String) (ws : List DecisionWarrant)
    → IsLineage sort store depth seen current ws
    → length ws ≤ depth
IsLineage-length depth sort store seen current [] h = omega arith
IsLineage-length depth sort store seen current (w ∷ ws) (rest, d, s, b, g, m, h) =
    let ih = IsLineage-length rest sort store (current ∷ seen) w.prior_warrant_hash ws h in
    omega arith

-- A lineage is given exactly when it starts at the warrant of the hash, goes on at the prior of each
-- warrant, meets no hash twice, and ends only where the depth is used up, the next hash is blank,
-- the genesis hash or one met before, or no warrant is stored under it; it has at most the depth that
-- is asked for.
pub lineage_from-IsLineage :
    (sort : Items → Items) (store : WarrantStore) (hash : String) (max_depth : ℕ)
    (ws : List DecisionWarrant)
    → ((lineage_from sort store hash max_depth ≡ ws) ↔ IsLineage sort store max_depth [] hash ws)
      × (length (lineage_from sort store hash max_depth) ≤ max_depth)
unfolding lineage_from
lineage_from-IsLineage sort store hash max_depth ws =
    let is = lineage_loop-IsLineage max_depth sort store [] hash in
    (
      (
        λ e. subst (IsLineage sort store max_depth [] hash) e is,
        λ h. IsLineage-lineage_loop max_depth sort store [] hash ws h,
      ),
      IsLineage-length max_depth sort store [] hash _ is,
    )
