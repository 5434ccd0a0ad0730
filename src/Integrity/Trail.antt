-- ===== src/Integrity/Trail.antt =====
-- The view of a receipt's effect fields that both trail readers take (`_params`,
-- ugk/integrity/external_irreversible.py and ugk/integrity/external_reversible.py).
use ugk.Base.{String, Bool, true, false, List, ◌&&◌, any}
use ugk.Json.{Json, text, Fields, get, set, is_null, json_eq}
use ugk.Store.Receipt.{Receipt}

abbrev over : String → Json → Fields → Fields
over k v p = elim (is_null v) [ true ↦ p | false ↦ set k v p ]

-- A column that is there takes the place of its parameter marker. The reader of irreversible trails
-- has no entry for the two compensation keys, and reads neither.
unfoldable pub view : Receipt → Fields
view r = over "gate_admit_ref" r.effect.effect_gate_admit_ref (
    over "abort_reason" r.effect.effect_abort_reason (
      over "compensation_idempotency_key" r.effect.effect_compensation_idempotency_key (
        over "compensate_ref" r.effect.effect_compensate_ref (
          over "prepare_ref" r.effect.effect_prepare_ref (
            over "idempotency_key" r.effect.effect_idempotency_key (
              over "phase" r.effect.effect_phase
                (over "effect_atomicity" r.effect.effect_atomicity r.parameters)))))))

-- `p.get("effect_atomicity") == atomicity and p.get("phase") == phase`
unfoldable pub is_phase : String → String → Receipt → Bool
unfolding view
is_phase atomicity phase r =
    json_eq (get "effect_atomicity" (view r)) (text atomicity)
    && json_eq (get "phase" (view r)) (text phase)

-- `... and p.get("phase") in phases`
unfoldable pub is_phase_in : String → List String → Receipt → Bool
unfolding view
is_phase_in atomicity phases r =
    json_eq (get "effect_atomicity" (view r)) (text atomicity)
    && any (λ phase. json_eq (get "phase" (view r)) (text phase)) phases

-- A terminal of the same key that points back to this attempt, and of nothing else.
unfoldable pub clears : Receipt → Receipt → Bool
unfolding view
clears prepare terminal =
    json_eq (get "idempotency_key" (view terminal)) (get "idempotency_key" (view prepare))
    && json_eq (get "prepare_ref" (view terminal)) (text prepare.h_r)

-- A compensation terminal of the same reference and key.
unfoldable pub clears_compensate : Receipt → Receipt → Bool
unfolding view
clears_compensate compensate terminal =
    json_eq (get "compensate_ref" (view terminal)) (get "compensate_ref" (view compensate))
    && json_eq (get "compensation_idempotency_key" (view terminal))
        (get "compensation_idempotency_key" (view compensate))
