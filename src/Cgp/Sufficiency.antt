-- ===== src/Cgp/Sufficiency.antt =====
-- The disposition of a verdict and the enforcement of a policy (`classify`, `find_enforced_entry`,
-- `enforce_decision`, ugk/cgp/capability_sufficiency.py).
use ugk.Base.{
  String, Bool, true, false, Option, none, some, List, [], ◌∷◌, ◌==◌, not, ◌&&◌, find,
  if◌then◌else◌,
}

-- An enumerated scope. A proof that is not named is `none` or the empty text.
pub record PolicyEntry : Type 0 where
  pub jurisdiction : String
  pub op : String
  pub capability_class : String
  pub by_construction_proof : Option String
  pub waiver_permits : Bool

abbrev governed : String → PolicyEntry
governed op = record {
  jurisdiction = "external-consequential";
  op = op;
  capability_class = "fail_closed_governance";
  by_construction_proof = none;
  waiver_permits = false;
}

-- `CAPABILITY_SUFFICIENCY_POLICY["enforced_scopes"]`
abbrev pub capability_sufficiency_policy : List PolicyEntry
capability_sufficiency_policy =
    governed "authority_model_set"
    ∷ governed "namespace_allocate"
    ∷ governed "namespace_delegate"
    ∷ governed "namespace_revoke"
    ∷ []

pub data Disposition : Type 0 where
  sufficient fail_closed waiver by_construction_admitted by_construction_unbacked : Disposition

unfoldable pub is_evidence_sufficient : String → Bool
is_evidence_sufficient verdict = verdict == "PROVEN"

abbrev pub is_named : Option String → Bool
is_named none = false
is_named (some proof) = not (proof == "")

named_proof : Option PolicyEntry → Bool
named_proof none = false
named_proof (some entry) = is_named entry.by_construction_proof

-- The disposition, without the text of its reason.
unfoldable pub classify : String → Option PolicyEntry → Disposition
unfolding named_proof
classify verdict entry =
    if verdict == "PROVEN"
    then sufficient
    else if verdict == "WAIVED"
    then waiver
    else if verdict == "BY-CONSTRUCTION"
    then (if named_proof entry then by_construction_admitted else by_construction_unbacked)
    else fail_closed

unfoldable pub find_enforced_entry : List PolicyEntry → String → String → Option PolicyEntry
find_enforced_entry policy jurisdiction op =
    find (λ e. e.jurisdiction == jurisdiction && e.op == op) policy

-- Does the disposition refuse under its entry?
unfoldable pub refuses : PolicyEntry → Disposition → Bool
refuses entry sufficient = false
refuses entry by_construction_admitted = false
refuses entry waiver = not entry.waiver_permits
refuses entry fail_closed = true
refuses entry by_construction_unbacked = true

unfoldable pub refuse_verdict : PolicyEntry → Option String → Bool
unfolding classify refuses
refuse_verdict entry none = true
refuse_verdict entry (some verdict) = refuses entry (classify verdict (some entry))

-- A scope that is not enumerated is not enforced.
unfoldable pub refuse_entry : Option PolicyEntry → Option String → Bool
unfolding refuse_verdict
refuse_entry none verdict = false
refuse_entry (some entry) verdict = refuse_verdict entry verdict

-- Whether the operation is refused; the cause is `insufficient-capability` where it is.
unfoldable pub enforce_decision : List PolicyEntry → String → String → Option String → Bool
unfolding find_enforced_entry refuse_entry
enforce_decision policy jurisdiction op verdict =
    refuse_entry (find_enforced_entry policy jurisdiction op) verdict
