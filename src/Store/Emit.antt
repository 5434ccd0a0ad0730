-- ===== src/Store/Emit.antt =====
-- Which terminal outcomes may be committed, and the continuation and bridge records that they need
-- (`_assert_emittable`, `_derive_committed_outcome`, `_validate_continuation`,
-- `_validate_bridge_record`, `continuation_expired`, ugk/storage/store.py).
use ugk.Base.{
  String, Bool, true, false, Option, none, some, List, [], ◌∷◌, ◌==◌, not, ◌&&◌, ◌||◌,
  if◌then◌else◌,
}
use ugk.Base.Names.{elem}
use ugk.Json.{
  Json, null, bool, int, negative, text, obj, Fields, end, field, get, has, is_null, json_eq,
  keep_fields,
}
use ugk.Crypto.{Hash}
use ugk.Store.Receipt.{ContinuationColumns, BridgeColumns}
use ugk.Store.Effect.{in_domain, hashable}
use ugk.Store.Attempt.{
  Attempt, raised, returned, value_error, type_error, reserved_outcome_error, ◌>>=◌, ◌>>◌,
}

abbrev pub terminal_outcome_domain : List String
terminal_outcome_domain =
    "ADMIT" ∷ "REFUSE" ∷ "DEFER" ∷ "STRUCTURAL_ERROR" ∷ "BRIDGE" ∷ "CRISIS" ∷ []

abbrev pub emittable_outcomes : List String
emittable_outcomes = "ADMIT" ∷ "REFUSE" ∷ "STRUCTURAL_ERROR" ∷ []

abbrev pub continuation_model : String
continuation_model = "continuation_record_model_v1"

abbrev pub continuation_state_domain : List String
continuation_state_domain = "HELD" ∷ "RESUMED" ∷ "RESOLVED" ∷ "EXPIRED" ∷ "REFUSED" ∷ []

abbrev pub continuation_expiry_kind_domain : List String
continuation_expiry_kind_domain = "receipt_height" ∷ "explicit_trigger" ∷ []

abbrev pub bridge_downgrade_taxonomy : List String
bridge_downgrade_taxonomy =
    "jurisdiction_crossing" ∷ "semantic_downgrade" ∷ "regime_translation" ∷ []

-- `isinstance(v, str) and v`
unfoldable pub is_name : Json → Bool
is_name (text x) = not (x == "")
is_name _ = false

-- `isinstance(v, int)`; a Boolean is an `int` of Python.
abbrev pub is_int : Json → Bool
is_int (int n) = true
is_int (negative n) = true
is_int (bool b) = true
is_int _ = false

-- `set(eb.keys()) == {"kind", "value"}`
unfoldable pub is_expiry_basis : Json → Bool
is_expiry_basis (obj fs) =
    has "kind" fs
    && has "value" fs
    && elim (keep_fields (λ k. not (k == "kind" || k == "value")) fs) [
      | end ↦ true
      | field k v rest ↦ false
    ]
is_expiry_basis _ = false

abbrev pub fields_of : Json → Fields
fields_of (obj fs) = fs
fields_of _ = end

-- `dumps` is `json.dumps` with sorted keys, in ASCII.
module _ (hash : Hash) (dumps : Json → String) where
  unfoldable pub compute_continuation_id : Json → Json → Json → Json → Json → String
  compute_continuation_id op authority parameters jurisdiction anchor = hash.sha256 (
      "UGK-CONT-v1"
      ∷ hash.canonical_json (
          obj (
            field "op" op (
              field "authority" authority (
                field "parameters" parameters
                  (field "jurisdiction" jurisdiction (field "anchor" anchor end))))))
      ∷ [])

  canon_eb : Json → Json
  canon_eb null = null
  canon_eb v = text (dumps v)

  authority_text : Json → Json
  unfolding canon_eb
  authority_text (text a) = text a
  authority_text v = canon_eb v

  -- The id that the record keeps: recomputed where an anchor is given, else the one carried.
  unfoldable pub continuation_id_of : Fields → Attempt Json
  unfolding compute_continuation_id is_name
  continuation_id_of c =
      let cid = get "id" c in
      let anchor = get "anchor" c in
      let expected =
        compute_continuation_id (get "op" c) (get "authority" c) (get "parameters" c)
          (get "jurisdiction" c) anchor in
      if not (is_null anchor)
      then (if not (is_null cid) && not (json_eq cid (text expected))
          then raised (value_error "continuation_id is not the recomputation")
          else returned (text expected))
      else if not (is_name cid)
      then raised (value_error "continuation_id required")
      else returned cid

  unfoldable pub columns_of : Fields → Json → ContinuationColumns
  unfolding canon_eb authority_text
  columns_of c cid = record {
    continuation_id = cid;
    continuation_op = get "op" c;
    continuation_authority = authority_text (get "authority" c);
    continuation_parameters = canon_eb (get "parameters" c);
    continuation_jurisdiction = get "jurisdiction" c;
    continuation_expiry_basis = canon_eb (get "expiry_basis" c);
    continuation_state = get "state" c;
    continuation_model_id = if has "model_id" c then get "model_id" c else text continuation_model;
  }

  pub check_continuation : Fields → Attempt Unit
  unfolding is_expiry_basis in_domain is_name
  check_continuation c =
      let state = get "state" c in
      let model_id = if has "model_id" c then get "model_id" c else text continuation_model in
      let eb = get "expiry_basis" c in
      let kind = get "kind" (fields_of eb) in
      let value = get "value" (fields_of eb) in
      if not (hashable state)
      then raised type_error
      else if not (in_domain state continuation_state_domain)
      then raised (value_error "continuation_state")
      else if not (json_eq model_id (text continuation_model))
      then raised (value_error "continuation_model_id")
      else if not (is_expiry_basis eb)
      then raised (value_error "continuation_expiry_basis")
      else if not (hashable kind)
      then raised type_error
      else if not (in_domain kind continuation_expiry_kind_domain)
      then raised (value_error "continuation expiry kind")
      else if json_eq kind (text "receipt_height") && not (is_int value)
      then raised (value_error "receipt_height expiry value must be an int")
      else if not (is_name (get "op" c))
      then raised (value_error "continuation_op")
      else returned tt

  -- `continuation` is the argument of the caller, a dict or another object.
  unfoldable pub validate_continuation : Json → Attempt ContinuationColumns
  unfolding check_continuation continuation_id_of columns_of
  validate_continuation (obj c) =
      check_continuation c >> continuation_id_of c >>= λ cid. returned (columns_of c cid)
  validate_continuation _ = raised (value_error "continuation must be a dict")

unfoldable pub validate_bridge_record : Json → Attempt BridgeColumns
unfolding is_name in_domain
validate_bridge_record (obj b) =
    let reason = get "bridge_downgrade_reason" b in
    if not (is_name (get "bridge_record_id" b))
    then raised (value_error "bridge_record_id")
    else if not (is_name (get "bridge_source_regime_ref" b))
    then raised (value_error "bridge_source_regime_ref")
    else if not (is_name (get "bridge_target_regime_ref" b))
    then raised (value_error "bridge_target_regime_ref")
    else if not (is_name (get "bridge_transformation_ref" b))
    then raised (value_error "bridge_transformation_ref")
    else if not (is_name (get "bridge_preserved_evidence_ref" b))
    then raised (value_error "bridge_preserved_evidence_ref")
    else if not (hashable reason)
    then raised type_error
    else if not (in_domain reason bridge_downgrade_taxonomy)
    then raised (value_error "bridge_downgrade_reason")
    else returned (record {
      bridge_record_id = get "bridge_record_id" b;
      bridge_source_regime_ref = get "bridge_source_regime_ref" b;
      bridge_target_regime_ref = get "bridge_target_regime_ref" b;
      bridge_transformation_ref = get "bridge_transformation_ref" b;
      bridge_downgrade_reason = reason;
      bridge_preserved_evidence_ref = get "bridge_preserved_evidence_ref" b;
    })
validate_bridge_record _ = raised (value_error "bridge surface must be a dict")

unfoldable pub derive_committed_outcome : String → Bool → Option String → String → String × String
derive_committed_outcome op failed (some override) intent = (override, intent)
derive_committed_outcome op failed none intent =
    if op == "gate_refuse"
    then ("REFUSE", "constitutional-refusal")
    else if op == "protocol_error"
    then ("STRUCTURAL_ERROR", (if intent == "" then "protocol_error" else intent))
    else ("ADMIT", (if failed then "admitted-effect-aborted" else "all-surfaces-pass"))

-- The kernel's `bridge_verifier`, or none.
abbrev pub BridgeVerifier : Type 0
BridgeVerifier = Option (Json → Bool)

unfoldable pub bridge_emittable : BridgeVerifier → Json → Attempt Unit
bridge_emittable none b = raised (reserved_outcome_error "no verifier supplied")
bridge_emittable (some verifier) b =
    if verifier b
    then returned tt
    else raised (reserved_outcome_error "bridge surface fails BRIDGE-BINDING")

abbrev is_held : Json → Bool
is_held (obj c) = json_eq (get "state" c) (text "HELD")
is_held _ = false

abbrev is_surface : Json → Bool
is_surface (obj (field k v fs)) = true
is_surface _ = false

unfoldable pub assert_emittable :
    Hash → (Json → String) → String → Json → Json → BridgeVerifier → Attempt Unit
unfolding validate_continuation bridge_emittable
assert_emittable hash dumps outcome continuation bridge verifier =
    if not (elem outcome terminal_outcome_domain)
    then raised (value_error "terminal_outcome")
    else if outcome == "DEFER"
    then (if not (is_held continuation)
        then raised (reserved_outcome_error "DEFER requires a valid HELD continuation record")
        else validate_continuation hash dumps continuation >> returned tt)
    else if outcome == "BRIDGE"
    then (if not (is_surface bridge)
        then raised (reserved_outcome_error "BRIDGE requires a committed v8 bridge surface")
        else bridge_emittable verifier bridge)
    else if not (elem outcome emittable_outcomes)
    then raised (reserved_outcome_error "RESERVED; not emittable")
    else returned tt
