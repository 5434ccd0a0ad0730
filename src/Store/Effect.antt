-- ===== src/Store/Effect.antt =====
-- The typed effect surface and its parameter markers (`_derive_effect_columns`,
-- `_derive_effect_markers`, `_resolve_effect_surface`, `verify_effect_column_marker_consistency`,
-- ugk/storage/store.py).
use ugk.Base.{
  String, Bool, true, false, Option, none, some, List, [], ◌∷◌, ◌==◌, not, ◌&&◌, ◌||◌, any, nat_eq,
  if◌then◌else◌,
}
use ugk.Base.Names.{elem}
use ugk.Json.{
  Json, null, bool, int, negative, float, text, arr, obj, nil, Fields, end, field, get, has, set,
  keep_fields, is_null, json_eq,
}
use ugk.Store.Receipt.{Receipt, EffectColumns}
use ugk.Store.Attempt.{Attempt, raised, returned, effect_domain_error, type_error, ◌>>=◌}

abbrev pub effect_model : String
effect_model = "effect_atomicity_model_v1"

abbrev pub effect_atomicity_domain : List String
effect_atomicity_domain =
    "pure" ∷ "store_local" ∷ "external_reversible" ∷ "external_irreversible" ∷ "non_atomic" ∷ []

abbrev pub effect_phase_domain : List String
effect_phase_domain =
    "prepare" ∷ "commit" ∷ "abort" ∷ "compensate" ∷ "compensated" ∷ "compensation_failed" ∷ []

-- The parameter keys of `_EFFECT_MARKER_MAP`.
abbrev pub marker_keys : List String
marker_keys =
    "effect_atomicity" ∷ "phase" ∷ "prepare_ref" ∷ "compensate_ref" ∷ "idempotency_key"
    ∷ "compensation_idempotency_key" ∷ "abort_reason" ∷ "gate_admit_ref" ∷ []

-- `bool(v)` of Python.
unfoldable pub truthy : Json → Bool
truthy null = false
truthy (bool b) = b
truthy (int n) = not (nat_eq n 0)
truthy (negative n) = not (nat_eq n 0)
truthy (float x) = not (x == "0.0" || x == "-0.0")
truthy (text x) = not (x == "")
truthy (arr nil) = false
truthy (obj end) = false
truthy _ = true

unfoldable pub in_domain : Json → List String → Bool
in_domain (text x) domain = elem x domain
in_domain _ domain = false

-- A list or a dict has no hash, so `v in domain` raises.
abbrev pub hashable : Json → Bool
hashable (arr xs) = false
hashable (obj fs) = false
hashable _ = true

-- `columns[col] = source.get(key)`, with the marker keys or with the column names.
pub markers_to_columns : Fields → EffectColumns
markers_to_columns p = record {
  effect_atomicity = get "effect_atomicity" p;
  effect_atomicity_model_id = text effect_model;
  effect_phase = get "phase" p;
  effect_prepare_ref = get "prepare_ref" p;
  effect_compensate_ref = get "compensate_ref" p;
  effect_idempotency_key = get "idempotency_key" p;
  effect_compensation_idempotency_key = get "compensation_idempotency_key" p;
  effect_abort_reason = get "abort_reason" p;
  effect_gate_admit_ref = get "gate_admit_ref" p;
}

pub descriptor_to_columns : Fields → EffectColumns
descriptor_to_columns d = record {
  effect_atomicity = get "effect_atomicity" d;
  effect_atomicity_model_id = text effect_model;
  effect_phase = get "effect_phase" d;
  effect_prepare_ref = get "effect_prepare_ref" d;
  effect_compensate_ref = get "effect_compensate_ref" d;
  effect_idempotency_key = get "effect_idempotency_key" d;
  effect_compensation_idempotency_key = get "effect_compensation_idempotency_key" d;
  effect_abort_reason = get "effect_abort_reason" d;
  effect_gate_admit_ref = get "effect_gate_admit_ref" d;
}

-- The two membership tests that `_derive_effect_columns` and `_resolve_effect_surface` share.
unfoldable pub domain_checks : Json → Json → EffectColumns → Attempt EffectColumns
unfolding in_domain
domain_checks ea ph columns =
    if not (hashable ea)
    then raised type_error
    else if not (in_domain ea effect_atomicity_domain)
    then raised (effect_domain_error "effect_atomicity")
    else if not (is_null ph) && not (hashable ph)
    then raised type_error
    else if not (is_null ph) && not (in_domain ph effect_phase_domain)
    then raised (effect_domain_error "effect_phase")
    else returned columns

-- `none` for a receipt that is not effect-bearing.
unfoldable pub derive_effect_columns : Fields → Attempt (Option EffectColumns)
unfolding domain_checks markers_to_columns
derive_effect_columns p =
    if is_null (get "effect_atomicity" p)
    then returned none
    else domain_checks (get "effect_atomicity" p) (get "phase" p) (markers_to_columns p) >>= λ c.
        returned (some c)

if_truthy : String → Json → Fields → Fields
if_truthy k v fs = if truthy v then field k v fs else fs

-- The markers that a descriptor mirrors: a key stands there exactly for a truthy column.
unfoldable pub derive_effect_markers : EffectColumns → Fields
unfolding if_truthy truthy
derive_effect_markers c = if_truthy "effect_atomicity" c.effect_atomicity (
    if_truthy "phase" c.effect_phase (
      if_truthy "prepare_ref" c.effect_prepare_ref (
        if_truthy "compensate_ref" c.effect_compensate_ref (
          if_truthy "idempotency_key" c.effect_idempotency_key (
            if_truthy "compensation_idempotency_key" c.effect_compensation_idempotency_key (
              if_truthy "abort_reason" c.effect_abort_reason
                (if_truthy "gate_admit_ref" c.effect_gate_admit_ref end)))))))

-- `{k: v for k, v in parameters.items() if k not in _EFFECT_MARKER_KEYS}`
unfoldable pub strip_markers : Fields → Fields
strip_markers p = keep_fields (λ k. not (elem k marker_keys)) p

-- `committed.update(derived)`
unfoldable pub update : Fields → Fields → Fields
update p end = p
update p (field k v fs) = update (set k v p) fs

-- Does a caller's marker disagree with the column?
unfoldable pub diverges : Fields → Fields → String → Bool
diverges p derived key = has key p && not (json_eq (get key p) (get key derived))

unfoldable pub marker_primary :
    Bool → Fields → Option EffectColumns → Attempt (Option EffectColumns × Fields)
unfolding strip_markers
marker_primary mirror p none = returned (none, p)
marker_primary mirror p (some c) = returned (some c, (if mirror then p else strip_markers p))

committed_parameters : Bool → Fields → Fields → Fields
unfolding strip_markers update
committed_parameters mirror p derived =
    if mirror then update (strip_markers p) derived else strip_markers p

unfoldable pub check_markers :
    Bool → Fields → EffectColumns → Attempt (Option EffectColumns × Fields)
unfolding diverges derive_effect_markers committed_parameters
check_markers mirror p columns =
    let derived = derive_effect_markers columns in
    if any (λ k. diverges p derived k) marker_keys
    then raised (effect_domain_error "diverges")
    else returned (some columns, committed_parameters mirror p derived)

unfoldable pub column_primary : Bool → Fields → Fields → Attempt (Option EffectColumns × Fields)
unfolding domain_checks descriptor_to_columns check_markers
column_primary mirror p d =
    if is_null (get "effect_atomicity" d)
    then returned (none, p)
    else domain_checks (get "effect_atomicity" d) (get "effect_phase" d) (descriptor_to_columns d)
      >>= λ c. check_markers mirror p c

-- The columns that the receipt commits, and the parameters that it stores.
unfoldable pub resolve_effect_surface :
    Fields → Option Fields → Bool → Attempt (Option EffectColumns × Fields)
unfolding derive_effect_columns marker_primary column_primary
resolve_effect_surface p none mirror = derive_effect_columns p >>= λ c. marker_primary mirror p c
resolve_effect_surface p (some d) mirror = column_primary mirror p d

unfoldable pub verify_effect_column_marker_consistency : Receipt → Bool
unfolding in_domain
verify_effect_column_marker_consistency r =
    let p = r.parameters in
    let c = r.effect in
    if not (nat_eq r.version 4)
    then true
    else json_eq c.effect_atomicity (get "effect_atomicity" p)
      && json_eq c.effect_phase (get "phase" p)
      && json_eq c.effect_prepare_ref (get "prepare_ref" p)
      && json_eq c.effect_compensate_ref (get "compensate_ref" p)
      && json_eq c.effect_idempotency_key (get "idempotency_key" p)
      && json_eq c.effect_compensation_idempotency_key (get "compensation_idempotency_key" p)
      && json_eq c.effect_abort_reason (get "abort_reason" p)
      && json_eq c.effect_gate_admit_ref (get "gate_admit_ref" p)
      && json_eq c.effect_atomicity_model_id (text effect_model)
      && in_domain c.effect_atomicity effect_atomicity_domain
      && (is_null c.effect_phase || in_domain c.effect_phase effect_phase_domain)
