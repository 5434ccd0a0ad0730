-- ===== src/Kernel/Governed.antt =====
-- What a reconciliation rests on (ugk/kernel.py).
use ugk.Base.{
  String, true, false, Option, none, some, ◌≡◌, ◌≢◌, ◌⊎◌, inl, inr, refl, sym, ◌∙◌, ◌==◌, eq_iff,
  find, arith, Bool-cases,
}
use ugk.Json.{text, json_eq, json_eq-text, nil}
use ugk.Store.Receipt.{Receipt}
use ugk.Store.World.{World}
use ugk.Integrity.Irreversible.{Orphan, detect_orphan_prepares}
use ugk.Integrity.Reversible
use ugk.Integrity.Reversible.{OrphanPrepare, OrphanCompensate}
use ugk.Governance.Warrant.{DecisionWarrant, WarrantStore, get_warrant, verify_warrant_hash}
use ugk.Kernel.Node.{Node, Outcome, threw, reconciliation_refused}
use ugk.Kernel.Irreversible.{max_outcome_write_attempts}
use ugk.Kernel.Order.{emit_terminal-acts}
use ugk.Kernel.Request.{Governance}
use ugk.Kernel.Graded.{
  Listing, Finding, filled, named, text_of, determined, check_finding, check_warrant, Grade,
  recorded, verified, refused, verify_reconciliation_warrant, grade_of, grade_found, grade_checked,
}
use ugk.Kernel.Reconcile.{
  Target, terminal_call, close_target, reconcile_target, reconcile_checked,
  reconcile_external_irreversible, irreversible_target, forward_target, compensation_target,
  reconcile_external_reversible_forward, reconcile_external_reversible_compensation,
}

-- A warrant of the current frame that is whole.
pub record IsBasis (w : World) (c : Governance) (id : String) (store : WarrantStore)
    (v : DecisionWarrant) : Type 0 where
  pub found : get_warrant c.sort_items store id ≡ some v
  pub whole : verify_warrant_hash w.hash v ≡ true
  pub law : v.law_hash ≡ c.law_hash
  pub legend : v.legend_hash ≡ c.legend_hash
  pub basis : v.constitutional_basis ≢ nil

-- The arguments are those of a governed finding.
pub record IsFinding (l : Listing) (f : Finding) : Type 0 where
  pub authority : filled l f.authority ≡ true
  pub evidence : filled l f.evidence_ref ≡ true
  pub outcome : (f.determination ≡ text "performed") ⊎ (f.determination ≡ text "not_performed")
  pub reference : named f.reference ≡ true

check_finding-IsFinding :
    (l : Listing) (f : Finding) (missing : String)
    → check_finding l f missing ≡ none
    → IsFinding l f
unfolding check_finding determined
check_finding-IsFinding l f missing h =
    elim (Bool-cases (json_eq f.determination (text "performed"))) [
      | inl p ↦ record {
        authority = ground arith;
        evidence = ground arith;
        outcome = inl (json_eq-text f.determination "performed" p);
        reference = ground arith;
      }
      | inr p ↦ record {
        authority = ground arith;
        evidence = ground arith;
        outcome = inr (json_eq-text f.determination "not_performed" (ground arith));
        reference = ground arith;
      }
    ]

check_warrant-IsBasis :
    (w : World) (c : Governance) (id : String) (store : WarrantStore) (v : DecisionWarrant)
    → get_warrant c.sort_items store id ≡ some v
    → check_warrant w c v ≡ none
    → IsBasis w c id store v
unfolding check_warrant
check_warrant-IsBasis w c id store v g h = record {
  found = g;
  whole = ground arith;
  law = ground (arith, eq_iff v.law_hash c.law_hash);
  legend = ground (arith, eq_iff v.legend_hash c.legend_hash);
  basis = λ e. ground arith;
}

-- The attached store has a warrant that is a basis.
abbrev pub HasBasis : World → Governance → String → Option WarrantStore → Type 0
HasBasis w c id o =
    (store : WarrantStore) × (v : DecisionWarrant) × (o ≡ some store) × IsBasis w c id store v

abbrev IsRefused : Grade → Type 0
IsRefused g = (reason : String) × (g ≡ refused reason)

grade_checked-IsBasis :
    (w : World) (c : Governance) (id : String) (store : WarrantStore) (v : DecisionWarrant)
    (o : Option String)
    → get_warrant c.sort_items store id ≡ some v
    → check_warrant w c v ≡ o
    → IsRefused (grade_checked v o) ⊎ IsBasis w c id store v
unfolding grade_checked
grade_checked-IsBasis w c id store v none g h = inr (check_warrant-IsBasis w c id store v g h)
grade_checked-IsBasis w c id store v (some reason) g h = inl (reason, refl)

grade_found-IsBasis :
    (w : World) (c : Governance) (id : String) (store : WarrantStore) (o : Option DecisionWarrant)
    → get_warrant c.sort_items store id ≡ o
    → IsRefused (grade_found w c o) ⊎ ((v : DecisionWarrant) × IsBasis w c id store v)
unfolding grade_found
grade_found-IsBasis w c id store none g = inl ("warrant-not-found", refl)
grade_found-IsBasis w c id store (some v) g =
    elim (grade_checked-IsBasis w c id store v (check_warrant w c v) g refl) [
      | inl r ↦ inl r
      | inr b ↦ inr (v, b)
    ]

verify-HasBasis :
    (w : World) (c : Governance) (l : Listing) (id : String) (o : Option WarrantStore)
    → IsRefused (verify_reconciliation_warrant w c l id o) ⊎ HasBasis w c id o
unfolding verify_reconciliation_warrant
verify-HasBasis w c l id none = inl ("verified-requires-warrant-store", refl)
verify-HasBasis w c l id (some store) = elim (Bool-cases (l.blank id)) [
  | inl e ↦ rw e (inl ("verified-requires-warrant-id", refl))
  | inr e ↦ rw e (elim (grade_found-IsBasis w c id store (get_warrant c.sort_items store id) refl) [
    | inl r ↦ inl r
    | inr (v, b) ↦ inr (store, v, refl, b)
  ])
]

grade_of-HasBasis :
    (w : World) (c : Governance) (l : Listing) (f : Finding) (o : Option WarrantStore)
    → IsRefused (grade_of w c l f o) ⊎ (f.verified ≡ true → HasBasis w c f.warrant_id o)
unfolding grade_of
grade_of-HasBasis w c l f o = elim (Bool-cases f.verified) [
  | inl e ↦ elim (verify-HasBasis w c l f.warrant_id o) [
    | inl r ↦ inl (rw e r)
    | inr b ↦ inr (λ h. b)
  ]
  | inr e ↦ inr (λ h. absurd (let k : true ≡ false = sym h ∙ e in cc))
]

close_target-acts :
    (w : World) (c : Governance) (f : Finding) (t : Target) (g : Grade) (node : Node)
    → (close_target w c f t g node).1.acts ≡ node.acts
unfolding close_target
close_target-acts w c f t (refused reason) node = refl
close_target-acts w c f t recorded node =
    emit_terminal-acts max_outcome_write_attempts w (terminal_call w c f t recorded) node
close_target-acts w c f t (verified v) node =
    emit_terminal-acts max_outcome_write_attempts w (terminal_call w c f t (verified v)) node

-- Nothing is changed and the reconciliation is refused.
abbrev pub IsRejected : Node → Outcome Receipt × Node → Type 0
IsRejected node x = (reason : String) × (x ≡ (threw (reconciliation_refused reason), node))

-- A reconciliation that is not refused: of an attempt that is found, with a governed finding, on a
-- valid warrant where it claims to be verified; and no effect is called.
pub record IsGoverned (w : World) (c : Governance) (l : Listing) (f : Finding)
    (target : Option Target) (node : Node) (x : Outcome Receipt × Node) : Type 0 where
  pub finding : IsFinding l f
  pub attempt : Target
  pub attempted : target ≡ some attempt
  pub backed : f.verified ≡ true → HasBasis w c f.warrant_id node.warrants
  pub acts : x.1.acts ≡ node.acts

reconcile_checked-IsGoverned :
    (w : World) (c : Governance) (l : Listing) (f : Finding) (missing : String) (o : Option String)
    (target : Option Target) (node : Node)
    → check_finding l f missing ≡ o
    → IsRejected node (reconcile_checked w c l f o target node)
      ⊎ IsGoverned w c l f target node (reconcile_checked w c l f o target node)
unfolding reconcile_checked reconcile_target close_target
reconcile_checked-IsGoverned w c l f missing (some reason) target node h = inl (reason, refl)
reconcile_checked-IsGoverned w c l f missing none none node h =
    inl ("not-an-outstanding-orphan", refl)
reconcile_checked-IsGoverned w c l f missing none (some t) node h =
    elim (grade_of-HasBasis w c l f node.warrants) [
      | inl (reason, e) ↦ inl (reason, rw e refl)
      | inr b ↦ inr (record {
        finding = check_finding-IsFinding l f missing h;
        attempt = t;
        attempted = refl;
        backed = b;
        acts = close_target-acts w c f t (grade_of w c l f node.warrants) node;
      })
    ]

-- The prepares and compensates in doubt that the reference of a finding names.
abbrev pub named_prepare : Listing → Finding → Node → Option Orphan
named_prepare l f node =
    find (λ o. o.prepare_ref == text_of f.reference)
      (detect_orphan_prepares l.prepares node.store.rows)

abbrev pub named_forward : Listing → Finding → Node → Option OrphanPrepare
named_forward l f node =
    find (λ o. o.prepare_ref == text_of f.reference)
      (Reversible.detect_orphans l.forward l.compensates node.store.rows).orphan_prepares

abbrev pub named_compensate : Listing → Finding → Node → Option OrphanCompensate
named_compensate l f node =
    find (λ o. json_eq o.compensate_ref (text (text_of f.reference)))
      (Reversible.detect_orphans l.forward l.compensates node.store.rows).orphan_compensates

-- A reconciliation is refused and changes nothing, or is governed.
abbrev pub IsGuarded :
    World → Governance → Listing → Finding → Option Target → Node → Outcome Receipt × Node → Type 0
IsGuarded w c l f target node x = IsRejected node x ⊎ IsGoverned w c l f target node x

-- The three reconciliations are refused, and then nothing at all is changed; or authority, evidence
-- and a determined outcome are given, the reference names an attempt in doubt of the right arc, a
-- whole warrant of the current frame backs the claim to be verified where it is made, and no effect
-- is called.
pub reconcile-IsGuarded :
    (w : World) (c : Governance) (l : Listing) (f : Finding) (node : Node)
    → IsGuarded w c l f
        (irreversible_target (named_prepare l f node))
        node
        (reconcile_external_irreversible w c l f node)
      × IsGuarded w c l f
          (forward_target (named_forward l f node))
          node
          (reconcile_external_reversible_forward w c l f node)
      × IsGuarded w c l f
          (compensation_target node.store.rows (text_of f.reference) (named_compensate l f node))
          node
          (reconcile_external_reversible_compensation w c l f node)
unfolding reconcile_external_irreversible reconcile_external_reversible_forward
    reconcile_external_reversible_compensation
reconcile-IsGuarded w c l f node = (
  reconcile_checked-IsGoverned w c l f "prepare_ref-required"
      (check_finding l f "prepare_ref-required") _ node refl,
  reconcile_checked-IsGoverned w c l f "prepare_ref-required"
      (check_finding l f "prepare_ref-required") _ node refl,
  reconcile_checked-IsGoverned w c l f "compensate_ref-required"
      (check_finding l f "compensate_ref-required") _ node refl,
)
