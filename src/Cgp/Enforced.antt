-- ===== src/Cgp/Enforced.antt =====
-- When an operation is let through (`enforce_decision`, ugk/cgp/capability_sufficiency.py).
use ugk.Base.{
  String, true, false, Option, none, some, List, [], ◌∷◌, ◌++◌, ◌≡◌, ◌≢◌, inl, inr, ◌↔◌, refl, sym,
  ap, ◌∙◌, subst, arith, String-cases, Bool-cases, All, ◌==◌, ◌&&◌, eq_iff,
}
use mathlib.Core.Option.{some-injective}
use ugk.Cgp.Sufficiency.{
  refuse_entry, PolicyEntry, find_enforced_entry, refuse_verdict, enforce_decision, is_named,
}

-- The evidence that an entry asks for: a proof, a construction with a named proof behind it, or a
-- waiver where the entry permits one.
pub data Suffices (entry : PolicyEntry) : String → Type 0 where
  proven : {v : String} → v ≡ "PROVEN" → Suffices entry v
  constructed :
      {v : String}
      → v ≡ "BY-CONSTRUCTION"
      → is_named entry.by_construction_proof ≡ true
      → Suffices entry v
  waived : {v : String} → v ≡ "WAIVED" → entry.waiver_permits ≡ true → Suffices entry v

Suffices-admitted :
    (entry : PolicyEntry) (v : String) → Suffices entry v → refuse_verdict entry (some v) ≡ false
unfolding refuse_verdict
Suffices-admitted entry v (proven e) = rw e refl
Suffices-admitted entry v (constructed e n) = rw (e, n) refl
Suffices-admitted entry v (waived e n) = rw (e, n) refl

admitted-Suffices :
    (entry : PolicyEntry) (v : String) → refuse_verdict entry (some v) ≡ false → Suffices entry v
unfolding refuse_verdict
admitted-Suffices entry v h = elim (String-cases v "PROVEN") [
  | inl (t, p) ↦ proven p
  | inr (t, p) ↦ elim (String-cases v "WAIVED") [
    | inl (t', p') ↦ waived p' (ground arith)
    | inr (t', p') ↦ elim (String-cases v "BY-CONSTRUCTION") [
      | inl (u, q) ↦ constructed q (ground arith)
      | inr (u, q) ↦ absurd (ground arith)
    ]
  ]
]

-- The verdict is there and suffices under the entry.
abbrev pub Met : Option String → PolicyEntry → Type 0
Met verdict entry = (v : String) × (verdict ≡ some v) × Suffices entry v

refuse_entry-Met :
    (found : Option PolicyEntry) (verdict : Option String)
    → (refuse_entry found verdict ≡ false)
      ↔ ((entry : PolicyEntry) → found ≡ some entry → Met verdict entry)
unfolding refuse_entry
refuse_entry-Met none verdict = (λ h entry e. absurd (cc), λ h. refl)
refuse_entry-Met (some entry) none =
    (λ h. absurd (let k : true ≡ false = h in cc), λ h. absurd (let (v, e, s) = h entry refl in cc))
refuse_entry-Met (some entry) (some v) = (
  λ h other e. (
    v,
    refl,
    subst (λ (o : PolicyEntry). Suffices o v) (some-injective _ _ e) (admitted-Suffices entry v h),
  ),
  λ h.
      let (u, e, s) = h entry refl in
      Suffices-admitted entry v
        (subst (λ (w : String). Suffices entry w) (sym (some-injective _ _ e)) s),
)

-- The scope of an operation is enumerated by this entry: it names the jurisdiction and the operation,
-- and no entry before it does.
pub record IsEntry (policy : List PolicyEntry) (jurisdiction op : String) (entry : PolicyEntry)
    : Type 0 where
  pub before : List PolicyEntry
  pub later : List PolicyEntry
  pub split : policy ≡ before ++ entry ∷ later
  pub of_jurisdiction : entry.jurisdiction ≡ jurisdiction
  pub of_op : entry.op ≡ op
  pub first : All (λ e. e.jurisdiction ≡ jurisdiction → e.op ≢ op) before

find_enforced_entry-IsEntry :
    (policy : List PolicyEntry) (jurisdiction op : String) (entry : PolicyEntry)
    → find_enforced_entry policy jurisdiction op ≡ some entry
    → IsEntry policy jurisdiction op entry
unfolding find_enforced_entry
find_enforced_entry-IsEntry [] j op entry h = cc
find_enforced_entry-IsEntry (e ∷ es) j op entry h =
    elim (Bool-cases (e.jurisdiction == j && e.op == op)) [
      | inl t ↦
          let same : e ≡ entry = some-injective _ _ (ground (arith, t, h)) in
          subst (IsEntry (e ∷ es) j op) same (record {
            before = [];
            later = es;
            split = refl;
            of_jurisdiction = ground (arith, t, eq_iff e.jurisdiction j);
            of_op = ground (arith, t, eq_iff e.op op);
            first = tt;
          })
      | inr t ↦
          let rest = find_enforced_entry-IsEntry es j op entry (ground (arith, t, h)) in
          record {
            before = e ∷ rest.before;
            later = rest.later;
            split = ap (λ l. e ∷ l) rest.split;
            of_jurisdiction = rest.of_jurisdiction;
            of_op = rest.of_op;
            first = (
              λ p q. ground (arith, t, p, q, eq_iff e.jurisdiction j, eq_iff e.op op),
              rest.first,
            );
          }
    ]

find_first :
    (before later : List PolicyEntry) (jurisdiction op : String) (entry : PolicyEntry)
    → entry.jurisdiction ≡ jurisdiction
    → entry.op ≡ op
    → All (λ e. e.jurisdiction ≡ jurisdiction → e.op ≢ op) before
    → find_enforced_entry (before ++ entry ∷ later) jurisdiction op ≡ some entry
unfolding find_enforced_entry
find_first [] later j op entry p q a =
    let t : (entry.jurisdiction == j && entry.op == op) ≡ true =
      ground (arith, p, q, eq_iff entry.jurisdiction j, eq_iff entry.op op) in
    rw t refl
find_first (e ∷ es) later j op entry p q (n, a) =
    let t : (e.jurisdiction == j && e.op == op) ≡ false =
      ground (arith, n, eq_iff e.jurisdiction j, eq_iff e.op op) in
    rw t (find_first es later j op entry p q a)

IsEntry-find_enforced_entry :
    (policy : List PolicyEntry) (jurisdiction op : String) (entry : PolicyEntry)
    → IsEntry policy jurisdiction op entry
    → find_enforced_entry policy jurisdiction op ≡ some entry
IsEntry-find_enforced_entry policy j op entry s =
    ap (λ l. find_enforced_entry l j op) s.split
    ∙ find_first s.before s.later j op entry s.of_jurisdiction s.of_op s.first

-- An operation is let through exactly when, for the first entry of the policy that names its
-- jurisdiction and the operation, where there is one, a verdict is there that is a proof, a
-- construction where the entry names a proof behind it, or a waiver where the entry permits one.
pub enforce_decision-Met :
    (policy : List PolicyEntry) (jurisdiction op : String) (verdict : Option String)
    → (enforce_decision policy jurisdiction op verdict ≡ false)
      ↔ ((entry : PolicyEntry) → IsEntry policy jurisdiction op entry → Met verdict entry)
unfolding enforce_decision
enforce_decision-Met policy jurisdiction op verdict =
    let (to, from) = refuse_entry-Met (find_enforced_entry policy jurisdiction op) verdict in
    (
      λ h entry s. to h entry (IsEntry-find_enforced_entry policy jurisdiction op entry s),
      λ h. from (λ entry e. h entry (find_enforced_entry-IsEntry policy jurisdiction op entry e)),
    )
