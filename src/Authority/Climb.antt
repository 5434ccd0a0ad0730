-- ===== src/Authority/Climb.antt =====
-- `canonical_path` returns exactly the way up from its target to the Governor.
use mathlib.Core.List.{append_assoc, append-nil, reverse-reverse}
use ugk.Base.{
  ℕ, zero, suc, ◌+◌, ◌<◌, ◌≤◌, String, ◌≡◌, ◌≢◌, refl, ap, ◌∙◌, sym, subst, ◌↔◌, inl, inr, true,
  false, some, List, [], ◌∷◌, ◌++◌, reverse, arith, ◌==◌, eq_iff, length, All, Bool-cases,
  Option-cases, String-cases,
}
use ugk.Base.Names.{elem, unseen, unseen-lt, unseen_nil}
use ugk.Base.Dict
use ugk.Authority.Edge.{AuthorityEdge, governor_authority}
use ugk.Authority.Graph.{AuthorityGraph, found, out_of_fuel, walk, canonical_path}

-- The edges from `name` upwards: each is the incoming edge of the authority that it is taken at,
-- the next authority is its issuer, and the way ends at the Governor and nowhere before.
abbrev pub Climbs : AuthorityGraph → String → List AuthorityEdge → Type 0
Climbs edges name [] = name ≡ governor_authority
Climbs edges name (e ∷ es) =
    (name ≢ governor_authority) × (Dict.get name edges ≡ some e) × Climbs edges e.issuer es

-- There is at most one way up.
Climbs-unique :
    (d : AuthorityGraph) (c : String) (es fs : List AuthorityEdge)
    → Climbs d c es
    → Climbs d c fs
    → length es ≡ length fs
Climbs-unique d c [] [] h k = refl
Climbs-unique d c [] (f ∷ fs) h k = absurd (k.0 h)
Climbs-unique d c (e ∷ es) [] h k = absurd (h.0 k)
Climbs-unique d c (e ∷ es) (f ∷ fs) h k =
    let same : e ≡ f = cc in
    ap suc (Climbs-unique d e.issuer es fs h.2 (subst (λ g. Climbs d g.issuer fs) (sym same) k.2))

-- Every authority of `seen` stands further down than `n` edges.
abbrev Below : AuthorityGraph → ℕ → String → Type 0
Below d n s = (fs : List AuthorityEdge) × Climbs d s fs × (n < length fs)

not-elem_seen :
    (d : AuthorityGraph) (c : String) (es : List AuthorityEdge) (seen : List String)
    → Climbs d c es
    → All (Below d (length es)) seen
    → elem c seen ≡ false
unfolding elem
not-elem_seen d c es [] h b = refl
not-elem_seen d c es (s ∷ seen) h b = elim (String-cases c s) [
  | inl (t, p) ↦ absurd (
      omega
        (arith, Climbs-unique d c es (b.0).0 h (subst (λ x. Climbs d x (b.0).0) (sym p) (b.0).1)))
  | inr (t, n) ↦ rw t (not-elem_seen d c es seen h b.1)
]

Below-le :
    (d : AuthorityGraph) (m n : ℕ) (seen : List String)
    → m ≤ n
    → All (Below d n) seen
    → All (Below d m) seen
Below-le d m n [] h b = tt
Below-le d m n (s ∷ seen) h b = (((b.0).0, (b.0).1, omega arith), Below-le d m n seen h b.1)

pub elem-keys :
    (d : AuthorityGraph) (c : String) (e : AuthorityEdge)
    → Dict.get c d ≡ some e
    → elem c (Dict.keys d) ≡ true
unfolding elem Dict.get Dict.keys
elem-keys [] c e h = cc
elem-keys ((k, v) ∷ d) c e h = ground (arith, elem-keys d c e, eq_iff k c, eq_iff c k)

walk_complete :
    (fuel : ℕ) (d : AuthorityGraph) (c : String) (seen : List String) (path es : List AuthorityEdge)
    → Climbs d c es
    → All (Below d (length es)) seen
    → unseen seen (Dict.keys d) < fuel
    → walk fuel d c seen path ≡ found (reverse (path ++ es))
unfolding walk
walk_complete zero d c seen path es h b lt = absurd (omega arith)
walk_complete (suc fuel) d c seen path [] h b lt =
    rw ((eq_iff c governor_authority).1 h, append-nil)
walk_complete (suc fuel) d c seen path (e ∷ es) h b lt =
    let fresh : elem c seen ≡ false = not-elem_seen d c (e ∷ es) seen h b in
    let lt' : unseen (c ∷ seen) (Dict.keys d) < fuel =
      omega (arith, unseen-lt c seen (Dict.keys d) fresh (elem-keys d c e h.1)) in
    elim (String-cases c governor_authority) [
      | inl (t, p) ↦ absurd (h.0 p)
      | inr (t, n) ↦
          rw (t, fresh, h.1)
            (walk_complete fuel d e.issuer (c ∷ seen) (path ++ e ∷ []) es h.2
                (
                  ((e ∷ es), h, omega arith),
                  Below-le d (length es) (length (e ∷ es)) seen (omega arith) b,
                )
                lt'
              ∙ ap (λ l. found (reverse l)) (append_assoc path (e ∷ []) es))
    ]

Found : AuthorityGraph → String → List AuthorityEdge → List AuthorityEdge → Type 0
Found d c path p = (es : List AuthorityEdge) × Climbs d c es × (p ≡ reverse (path ++ es))

Found-here :
    (d : AuthorityGraph) (c : String) (path p : List AuthorityEdge)
    → c ≡ governor_authority
    → found (reverse path) ≡ found p
    → Found d c path p
unfolding Found
Found-here d c path p g h =
    ([], g, let e : p ≡ reverse path = cc in e ∙ ap reverse (sym (append-nil path)))

Found-above :
    (d : AuthorityGraph) (c : String) (e : AuthorityEdge) (path p : List AuthorityEdge)
    → c ≢ governor_authority
    → Dict.get c d ≡ some e
    → Found d e.issuer (path ++ e ∷ []) p
    → Found d c path p
unfolding Found
Found-above d c e path p n g (es, climbs, q) =
    ((e ∷ es), (n, g, climbs), q ∙ ap reverse (append_assoc path (e ∷ []) es))

walk_sound :
    (fuel : ℕ) (d : AuthorityGraph) (c : String) (seen : List String) (path p : List AuthorityEdge)
    → walk fuel d c seen path ≡ found p
    → Found d c path p
unfolding walk
walk_sound zero d c seen path p h = cc
walk_sound (suc fuel) d c seen path p h = elim (String-cases c governor_authority) [
  | inl (t, g) ↦ Found-here d c path p g (rw t at h)
  | inr (t, n) ↦ elim (Bool-cases (elem c seen)) [
    | inl s ↦ ground (arith, t, s)
    | inr s ↦ elim (Option-cases (Dict.get c d)) [
      | inl e ↦ ground (arith, t, s, e)
      | inr (e, g) ↦
          Found-above d c e path p n g
            (walk_sound fuel d e.issuer (c ∷ seen) (path ++ e ∷ []) p (rw (t, s, g) at h))
    ]
  ]
]

walk_total :
    (fuel : ℕ) (d : AuthorityGraph) (c : String) (seen : List String) (path : List AuthorityEdge)
    → unseen seen (Dict.keys d) < fuel
    → walk fuel d c seen path ≢ out_of_fuel
unfolding walk
walk_total zero d c seen path lt h = absurd (omega arith)
walk_total (suc fuel) d c seen path lt h = elim (Bool-cases (elem c seen)) [
  | inl s ↦ ground (arith, s)
  | inr s ↦ elim (Option-cases (Dict.get c d)) [
    | inl e ↦ ground (arith, s, e)
    | inr (e, g) ↦ ground (
      arith,
      s,
      g,
      walk_total fuel d e.issuer (c ∷ seen) (path ++ e ∷ []),
      unseen-lt c seen (Dict.keys d) s (elem-keys d c e g),
    )
  ]
]

Climbs-governor :
    (d : AuthorityGraph) (t : String) (es : List AuthorityEdge)
    → t ≡ governor_authority
    → Climbs d t es
    → [] ≡ es
Climbs-governor d t [] g h = refl
Climbs-governor d t (e ∷ es) g h = absurd (h.0 g)

-- The walk of `canonical_path` always ends: in a path, at an authority without an incoming edge,
-- or at one that it has met before.
pub canonical_path_total :
    (edges : AuthorityGraph) (target : String) → canonical_path edges target ≢ out_of_fuel
unfolding canonical_path
canonical_path_total d t h = elim (Bool-cases (t == governor_authority)) [
  | inl e ↦ ground (arith, e)
  | inr e ↦
      ground (arith, e, walk_total (length (Dict.keys d) + 1) d t [] [], unseen_nil (Dict.keys d))
]

Found-all :
    (d : AuthorityGraph) (t : String) (p : List AuthorityEdge)
    → Found d t [] p
    → Climbs d t (reverse p)
unfolding Found
Found-all d t p (es, climbs, q) =
    subst (λ l. Climbs d t l) (sym (reverse-reverse es) ∙ ap reverse (sym q)) climbs

-- `canonical_path` returns a path exactly when its reverse is the way up from the target to the
-- Governor: by the incoming edge of each authority, to that edge's issuer.
pub canonical_path-found :
    (edges : AuthorityGraph) (target : String) (path : List AuthorityEdge)
    → (canonical_path edges target ≡ found path) ↔ Climbs edges target (reverse path)
unfolding canonical_path
canonical_path-found d t p = (
  (λ h. elim (String-cases t governor_authority) [
    | inl (e, g) ↦
        let q : [] ≡ p = ground (arith, e, h) in
        subst (λ (l : List AuthorityEdge). Climbs d t (reverse l)) q g
    | inr (e, n) ↦ Found-all d t p (walk_sound (length (Dict.keys d) + 1) d t [] [] p (rw e at h))
  ]),
  (λ h. elim (String-cases t governor_authority) [
    | inl (e, g) ↦
        rw e (ap found (ap reverse (Climbs-governor d t (reverse p) g h) ∙ reverse-reverse p))
    | inr (e, n) ↦ rw e (
        walk_complete (length (Dict.keys d) + 1) d t [] [] (reverse p) h tt
          (omega (arith, unseen_nil (Dict.keys d)))
        ∙ ap found (reverse-reverse p))
  ]),
)
