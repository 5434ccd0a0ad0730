-- ===== src/Will/Cover.antt =====
-- When an operation is covered, and by which declaration (`WillChecker.covers`, ugk/will.py).
use ugk.Base.{
  ℕ, ◌≤◌, String, Bool, true, false, Option, none, some, List, [], ◌∷◌, ap, ◌≡◌, ◌⊎◌, inl, inr, ◌↔◌,
  refl, sym, ◌∙◌, leb, length, arith, Bool-cases, All, Among,
}
use ugk.Base.Names.{elem}
use ugk.Base.Dict.{Dict}
use ugk.Will.Intent.{IntentDeclaration}
use ugk.Will.Checker.{
  covering, covers, covered_from, closure, seed_of, find_cover, first_hash, by_size, insert_by_size,
}
use ugk.Will.Reach.{Reach, seeded, step, elem-closure}

no_seed : (edges : Dict (List String)) (op : String) → Reach [] edges op → ⊥
unfolding elem
no_seed edges op (seeded m) = cc
no_seed edges op (step r g) = no_seed edges _ r

covered_from-covering :
    (op : String) (ds : List IntentDeclaration) (edges : Dict (List String)) (seed : List String)
    → ((ref : String) × (covered_from op ds edges none seed ≡ covering ref)) ↔ Reach seed edges op
unfolding covered_from
covered_from-covering op ds edges [] =
    (λ x. absurd (let h = x.1 in cc), λ r. absurd (no_seed edges op r))
covered_from-covering op ds edges (o ∷ seed) =
    elim (Bool-cases (elem op (closure (o ∷ seed) edges none))) [
      | inl e ↦ (
        λ x. (elem-closure (o ∷ seed) edges op).0 e,
        λ r. (find_cover op ds edges none, rw e refl),
      )
      | inr e ↦ (
        λ x. absurd (let h = x.1 in ground arith),
        λ r. absurd (let m = (elem-closure (o ∷ seed) edges op).1 r in cc),
      )
    ]

-- An operation is covered exactly when the production edges reach it from the operations that the
-- declarations declare, where no bound is put on the depth.
pub covers-covering :
    (op : String) (ds : List IntentDeclaration) (edges : Dict (List String))
    → ((ref : String) × (covers op ds edges none ≡ covering ref)) ↔ Reach (seed_of ds) edges op
unfolding covers
covers-covering op ds edges = covered_from-covering op ds edges (seed_of ds)

abbrev pub size : IntentDeclaration → ℕ
size d = length d.declared_ops

abbrev IsSorted : List IntentDeclaration → Type 0
IsSorted [] = Unit
IsSorted (d ∷ ds) = All (λ e. size d ≤ size e) ds × IsSorted ds

All-mono :
    (n m : ℕ) (ds : List IntentDeclaration)
    → n ≤ m
    → All (λ e. m ≤ size e) ds
    → All (λ e. n ≤ size e) ds
All-mono n m [] h a = tt
All-mono n m (d ∷ ds) h a = (omega arith, All-mono n m ds h a.1)

insert-All :
    (n : ℕ) (d : IntentDeclaration) (ds : List IntentDeclaration)
    → n ≤ size d
    → All (λ e. n ≤ size e) ds
    → All (λ e. n ≤ size e) (insert_by_size d ds)
unfolding insert_by_size
insert-All n d [] h a = (h, tt)
insert-All n d (e ∷ es) h a = elim (Bool-cases (leb (size d) (size e))) [
  | inl t ↦ rw t (h, a)
  | inr t ↦ rw t (a.0, insert-All n d es h a.1)
]

insert-IsSorted :
    (d : IntentDeclaration) (ds : List IntentDeclaration)
    → IsSorted ds
    → IsSorted (insert_by_size d ds)
unfolding insert_by_size
insert-IsSorted d [] s = (tt, tt)
insert-IsSorted d (e ∷ es) s = elim (Bool-cases (leb (size d) (size e))) [
  | inl t ↦ rw t ((ground arith, All-mono (size d) (size e) es (ground arith) s.0), s)
  | inr t ↦ rw t (insert-All (size e) d es (ground arith) s.0, insert-IsSorted d es s.1)
]

by_size-IsSorted : (ds : List IntentDeclaration) → IsSorted (by_size ds)
unfolding by_size
by_size-IsSorted [] = tt
by_size-IsSorted (d ∷ ds) = insert-IsSorted d (by_size ds) (by_size-IsSorted ds)

insert-Among :
    (x d : IntentDeclaration) (ds : List IntentDeclaration)
    → Among x (insert_by_size d ds) ↔ ((x ≡ d) ⊎ Among x ds)
unfolding insert_by_size
insert-Among x d [] = (λ h. h, λ h. h)
insert-Among x d (e ∷ es) = elim (Bool-cases (leb (size d) (size e))) [
  | inl t ↦ rw t (λ h. h, λ h. h)
  | inr t ↦
      let ih = insert-Among x d es in
      rw t (
        λ h. elim h [
          | inl p ↦ inr (inl p)
          | inr q ↦ elim (ih.0 q) [ inl p ↦ inl p | inr r ↦ inr (inr r) ]
        ],
        λ h. elim h [
          | inl p ↦ inr (ih.1 (inl p))
          | inr q ↦ elim q [ inl p ↦ inl p | inr r ↦ inr (ih.1 (inr r)) ]
        ],
      )
]

by_size-Among :
    (x : IntentDeclaration) (ds : List IntentDeclaration) → Among x (by_size ds) ↔ Among x ds
unfolding by_size
by_size-Among x [] = (λ h. h, λ h. h)
by_size-Among x (d ∷ ds) =
    let i = insert-Among x d (by_size ds) in
    let ih = by_size-Among x ds in
    (
      λ h. elim (i.0 h) [ inl p ↦ inl p | inr q ↦ inr (ih.0 q) ],
      λ h. i.1 (elim h [ inl p ↦ inl p | inr q ↦ inr (ih.1 q) ]),
    )

least :
    (e : IntentDeclaration) (es : List IntentDeclaration)
    → All (λ o. size e ≤ size o) es
    → (d : IntentDeclaration) → Among d (e ∷ es)
    → size e ≤ size d
least e es l d (inl p) = omega (arith, ap size p)
least e [] l d (inr q) = absurd q
least e (o ∷ os) l d (inr (inl p)) = omega (arith, l.0, ap size p)
least e (o ∷ os) l d (inr (inr q)) = least e os l.1 d (inr q)

first_hash_sound :
    (test : IntentDeclaration → Bool) (ds : List IntentDeclaration)
    → IsSorted ds
    → (d : IntentDeclaration) → Among d ds
    → test d ≡ true
    → (c : IntentDeclaration) × (first_hash test ds ≡ some c.declaration_hash)
      × Among c ds
      × (test c ≡ true)
      × ((o : IntentDeclaration) → Among o ds → test o ≡ true → size c ≤ size o)
unfolding first_hash
first_hash_sound test [] s d a h = absurd a
first_hash_sound test (e ∷ es) s d a h = elim (Bool-cases (test e)) [
  | inl t ↦ (e, rw t refl, inl refl, t, λ o b k. least e es s.0 o b)
  | inr f ↦ elim a [
    | inl p ↦ absurd (let q : true ≡ false = sym h ∙ (ap test p ∙ f) in cc)
    | inr q ↦
        let (c, x, y, z, w) = first_hash_sound test es s.1 d q h in
        (
          c,
          rw f x,
          inr y,
          z,
          λ o b k. elim b [
            | inl p ↦ absurd (let q' : true ≡ false = sym k ∙ (ap test p ∙ f) in cc)
            | inr r ↦ w o r k
          ],
        )
  ]
]

-- The reference of the declaration that covers.
pub record IsCover (op : String) (ds : List IntentDeclaration) (ref : String) : Type 0 where
  pub declaration : IntentDeclaration
  pub among : Among declaration ds
  pub hashed : ref ≡ declaration.declaration_hash
  pub declares : elem op declaration.declared_ops ≡ true
  pub smallest :
      (e : IntentDeclaration)
      → Among e ds
      → elem op e.declared_ops ≡ true
      → size declaration ≤ size e

find_cover-IsCover :
    (op : String) (ds : List IntentDeclaration) (edges : Dict (List String)) (depth : Option ℕ)
    (d : IntentDeclaration)
    → Among d ds
    → elem op d.declared_ops ≡ true
    → IsCover op ds (find_cover op ds edges depth)
unfolding find_cover
find_cover-IsCover op ds edges depth d a h =
    let test : IntentDeclaration → Bool = λ o. elem op o.declared_ops in
    let sound = first_hash_sound test (by_size ds) (by_size-IsSorted ds) in
    let (c, first, among, declares, small) = sound d ((by_size-Among d ds).1 a) h in
    rw first (record {
      declaration = c;
      among = (by_size-Among c ds).0 among;
      hashed = refl;
      declares = declares;
      smallest = λ e b k. small e ((by_size-Among e ds).1 b) k;
    })

covered_from-IsCover :
    (op : String) (ds : List IntentDeclaration) (edges : Dict (List String)) (depth : Option ℕ)
    (seed : List String) (ref : String)
    → covered_from op ds edges depth seed ≡ covering ref
    → ref ≡ find_cover op ds edges depth
unfolding covered_from
covered_from-IsCover op ds edges depth [] ref h = absurd (cc)
covered_from-IsCover op ds edges depth (o ∷ seed) ref h = ground arith

-- Where some declaration declares the operation itself and the operation is covered, the reference
-- given is the hash of a declaration that declares it, and none of those declares fewer operations.
pub covers-IsCover :
    (op : String) (ds : List IntentDeclaration) (edges : Dict (List String)) (depth : Option ℕ)
    (ref : String) (d : IntentDeclaration)
    → covers op ds edges depth ≡ covering ref
    → Among d ds
    → elem op d.declared_ops ≡ true
    → IsCover op ds ref
unfolding covers
covers-IsCover op ds edges depth ref d h a m =
    rw (covered_from-IsCover op ds edges depth (seed_of ds) ref h)
      (find_cover-IsCover op ds edges depth d a m)
