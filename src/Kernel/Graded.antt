-- ===== src/Kernel/Graded.antt =====
-- What a reconciliation is given, and the grade that its warrant allows
-- (`_verify_reconciliation_warrant`, ugk/kernel.py).
use ugk.Base.{
  String, Bool, true, false, Option, none, some, List, ◌==◌, not, ◌&&◌, ◌||◌, if◌then◌else◌,
}
use ugk.Json.{Json, bool, text, Fields, end, field, json_eq, nil}
use ugk.Store.World.{World}
use ugk.Integrity.Irreversible.{Orphan}
use ugk.Integrity.Reversible.{OrphanPrepare, OrphanCompensate}
use ugk.Governance.Warrant.{
  DecisionWarrant, WarrantStore, get_warrant, verify_warrant_hash, body_dict,
}
use ugk.Kernel.Request.{Governance}

-- The orders in which the detectors list what they find, and Python's `not s.strip()`.
pub record Listing : Type 0 where
  pub prepares : List Orphan → List Orphan
  pub forward : List OrphanPrepare → List OrphanPrepare
  pub compensates : List OrphanCompensate → List OrphanCompensate
  pub blank : String → Bool

-- `reference` is the `prepare_ref` or the `compensate_ref` of the call.
pub record Finding : Type 0 where
  pub reference : Json
  pub determination : Json
  pub evidence_ref : Json
  pub authority : Json
  pub jurisdiction : String
  pub intent_ref : String
  pub warrant_id : String
  pub verified : Bool

unfoldable pub filled : Listing → Json → Bool
filled l (text s) = not (l.blank s)
filled l _ = false

unfoldable pub named : Json → Bool
named (text s) = not (s == "")
named _ = false

abbrev pub text_of : Json → String
text_of (text s) = s
text_of _ = ""

unfoldable pub determined : Json → Bool
determined d = json_eq d (text "performed") || json_eq d (text "not_performed")

-- The tests of the arguments, in the order of the code; `missing` is the error for the reference.
unfoldable pub check_finding : Listing → Finding → String → Option String
check_finding l f missing =
    if not (filled l f.authority)
    then some "authority-required"
    else if not (filled l f.evidence_ref)
    then some "evidence-required"
    else if not (determined f.determination)
    then some "determination-undetermined"
    else if not (named f.reference)
    then some missing
    else none

-- Is the warrant of this frame, and whole?
unfoldable pub check_warrant : World → Governance → DecisionWarrant → Option String
check_warrant w c v =
    if not (verify_warrant_hash w.hash v)
    then some "warrant-hash-invalid"
    else if not (v.law_hash == c.law_hash && v.legend_hash == c.legend_hash)
    then some "warrant-stale-frame"
    else elim v.constitutional_basis [ nil ↦ some "warrant-basis-invalid" | _ ↦ none ]

-- The warrant of a verified reconciliation, or the reason that it is refused.
pub data Grade : Type 0 where
  recorded : Grade
  verified : DecisionWarrant → Grade
  refused : String → Grade

unfoldable pub grade_checked : DecisionWarrant → Option String → Grade
grade_checked v none = verified v
grade_checked v (some reason) = refused reason

unfoldable pub grade_found : World → Governance → Option DecisionWarrant → Grade
unfolding grade_checked
grade_found w c none = refused "warrant-not-found"
grade_found w c (some v) = grade_checked v (check_warrant w c v)

-- `_verify_reconciliation_warrant`
unfoldable pub verify_reconciliation_warrant :
    World → Governance → Listing → String → Option WarrantStore → Grade
unfolding grade_found
verify_reconciliation_warrant w c l id none = refused "verified-requires-warrant-store"
verify_reconciliation_warrant w c l id (some store) =
    if l.blank id
    then refused "verified-requires-warrant-id"
    else grade_found w c (get_warrant c.sort_items store id)

unfoldable pub grade_of : World → Governance → Listing → Finding → Option WarrantStore → Grade
grade_of w c l f store =
    if f.verified then verify_reconciliation_warrant w c l f.warrant_id store else recorded

grade_markers : World → Grade → Fields
grade_markers w (verified v) =
    field "reconciliation_grade" (text "verified")
      (field "reconciliation_warrant_snapshot" (text (w.hash.storage_json (body_dict v))) end)
grade_markers w _ = end

-- `arc` names the arc of a reversible effect.
unfoldable pub markers_of : World → Finding → Option String → Grade → Fields
unfolding grade_markers
markers_of w f arc grade = field "reconciled" (bool true) (
    field "reconciled_by" f.authority (
      field "reconciliation_evidence_ref" f.evidence_ref (
        field "determination" f.determination (elim arc [
          | none ↦ grade_markers w grade
          | some name ↦ field "arc" (text name) (grade_markers w grade)
        ]))))
