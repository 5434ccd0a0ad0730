-- ===== src/Kernel/Preflight.antt =====
-- The protocol boundary of `execute`: what is refused before anything is written (ugk/kernel.py).
use ugk.Base.{String, Bool, true, false, Option, none, some, ◌==◌, not, ◌||◌, if◌then◌else◌}
use ugk.Json.{
  Json, null, text, float, arr, obj, Fields, end, field, Items, nil, cons, serializable,
  serializable_fields,
}
use ugk.Kernel.Node.{Outcome, gave, threw, protocol_error}
use ugk.Kernel.Request.{
  Governance, Request, EffectAtomicity, pure, store_local, external_reversible,
  external_irreversible, non_atomic,
}

-- `_reject_floats_in_governance_input`: is there a float anywhere?
unfoldable mutual
  pub has_float : Json → Bool
  has_float (float x) = true
  has_float (arr xs) = has_float_items xs
  has_float (obj fs) = has_float_fields fs
  has_float _ = false

  pub has_float_items : Items → Bool
  has_float_items nil = false
  has_float_items (cons x xs) = has_float x || has_float_items xs

  pub has_float_fields : Fields → Bool
  has_float_fields end = false
  has_float_fields (field k v fs) = has_float v || has_float_fields fs

-- The authority that acts: the kernel's own where none is given.
unfoldable pub authority_of : Governance → Json → Option String
authority_of c null = some c.authority
authority_of c (text name) = if name == "" then none else some name
authority_of c _ = none

unfoldable pub parameters_of : Json → Option Fields
parameters_of null = some end
parameters_of (obj fs) = some fs
parameters_of _ = none

-- `None`, or a list that `sorted` accepts.
unfoldable pub warrant_basis_valid : Governance → Json → Bool
warrant_basis_valid c null = true
warrant_basis_valid c (arr xs) = c.sortable xs
warrant_basis_valid c _ = false

-- `None`, or a list that `json.dumps` accepts.
unfoldable pub authority_set_valid : Json → Bool
authority_set_valid null = true
authority_set_valid (arr xs) = serializable (arr xs)
authority_set_valid _ = false

-- A non-empty text.
unfoldable pub has_key : Json → Bool
has_key (text key) = not (key == "")
has_key _ = false

-- The class of an effect is declared, and an outside effect has an idempotency key.
atomicity_valid : Option EffectAtomicity → Json → Bool
unfolding has_key
atomicity_valid none key = false
atomicity_valid (some external_reversible) key = has_key key
atomicity_valid (some external_irreversible) key = has_key key
atomicity_valid (some pure) key = true
atomicity_valid (some store_local) key = true
atomicity_valid (some non_atomic) key = true

unfoldable pub effect_valid : Request → Bool
unfolding atomicity_valid
effect_valid q = elim q.effect [
  | none ↦ true
  | some e ↦ atomicity_valid q.effect_atomicity q.idempotency_key
]

pub record Accepted : Type 0 where
  pub authority : String
  pub parameters : Fields

checked : Governance → Request → String → Fields → Outcome Accepted
checked c q authority parameters =
    if not (serializable_fields parameters)
    then threw (protocol_error "parameters not JSON-serializable")
    else if has_float_fields parameters
    then threw (protocol_error "float_present")
    else if not (warrant_basis_valid c q.warrant_basis)
    then threw (protocol_error "warrant_basis")
    else if not (authority_set_valid q.authority_set)
    then threw (protocol_error "authority_set")
    else if not (effect_valid q)
    then threw (protocol_error "effect")
    else gave (record { authority = authority; parameters = parameters })

with_parameters : Governance → Request → String → Option Fields → Outcome Accepted
unfolding checked
with_parameters c q authority none = threw (protocol_error "parameters")
with_parameters c q authority (some parameters) = checked c q authority parameters

with_authority : Governance → Request → Option String → Outcome Accepted
unfolding with_parameters
with_authority c q none = threw (protocol_error "authority")
with_authority c q (some authority) = with_parameters c q authority (parameters_of q.parameters)

unfoldable pub preflight : Governance → Request → Outcome Accepted
unfolding with_authority
preflight c q = with_authority c q (authority_of c q.authority)
