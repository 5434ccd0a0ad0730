-- ===== src/Integrity/Irreversible.antt =====
-- The orphan detector of irreversible effects (ugk/integrity/external_irreversible.py).
use ugk.Base.{ℕ, String, Bool, true, List, [], ◌∷◌, not, ◌&&◌, any, keep, map, length}
use ugk.Json.{Json, text, get, json_eq}
use ugk.Store.Receipt.{Receipt}
use ugk.Integrity.Trail.{view, is_phase, is_phase_in, clears}

abbrev pub external_irreversible : String
external_irreversible = "external_irreversible"

abbrev pub terminal_phases : List String
terminal_phases = "commit" ∷ "abort" ∷ []

unfoldable pub is_prepare : Receipt → Bool
unfolding is_phase
is_prepare r = is_phase external_irreversible "prepare" r

-- The second branch of the loop: a prepare is not looked at again.
unfoldable pub is_terminal : Receipt → Bool
unfolding is_prepare is_phase_in
is_terminal r = not (is_prepare r) && is_phase_in external_irreversible terminal_phases r

unfoldable pub prepares : List Receipt → List Receipt
unfolding is_prepare
prepares rs = keep (λ r. is_prepare r) rs

unfoldable pub terminals : List Receipt → List Receipt
unfolding is_terminal
terminals rs = keep (λ r. is_terminal r) rs

-- The prepares that no terminal clears.
unfoldable pub in_doubt : List Receipt → List Receipt
unfolding prepares terminals clears
in_doubt rs = keep (λ r. not (any (λ t. clears r t) (terminals rs))) (prepares rs)

pub record Orphan : Type 0 where
  pub op : String
  pub idempotency_key : Json
  pub prepare_ref : String
  pub prepare_h_r : String
  pub state : String
  pub prepare_ts : Json
  pub gate_admit_ref : Json
  pub key_has_terminal : Bool
  pub key_terminal_phases : List String

-- Is there a terminal of this key and phase, under any reference?
key_phase : List Receipt → Receipt → String → Bool
unfolding view
key_phase ts r phase =
    any
      (λ t.
        json_eq (get "idempotency_key" (view t)) (get "idempotency_key" (view r))
        && json_eq (get "phase" (view t)) (text phase))
      ts

-- In the order of `sorted`.
key_terminal_phases_of : List Receipt → Receipt → List String
unfolding key_phase
key_terminal_phases_of ts r = keep (λ phase. key_phase ts r phase) ("abort" ∷ "commit" ∷ [])

unfoldable pub describe : List Receipt → Receipt → Orphan
unfolding key_terminal_phases_of view
describe ts r =
    let phases = key_terminal_phases_of ts r in
    record {
      op = r.op;
      idempotency_key = get "idempotency_key" (view r);
      prepare_ref = r.h_r;
      prepare_h_r = r.h_r;
      state = "in_doubt";
      prepare_ts = r.timestamp;
      gate_admit_ref = get "gate_admit_ref" (view r);
      key_has_terminal = any (λ phase. true) phases;
      key_terminal_phases = phases;
    }

-- `sort` is `list.sort` by operation, key and reference.
unfoldable pub detect_orphan_prepares : (List Orphan → List Orphan) → List Receipt → List Orphan
unfolding in_doubt terminals describe
detect_orphan_prepares sort rs = sort (map (λ r. describe (terminals rs) r) (in_doubt rs))

pub record Summary : Type 0 where
  pub prepare : ℕ
  pub commit : ℕ
  pub abort : ℕ
  pub orphans : List Orphan
  pub n_orphans : ℕ

unfoldable pub summarize : (List Orphan → List Orphan) → List Receipt → Summary
unfolding detect_orphan_prepares
summarize sort rs =
    let count : String → ℕ =
      λ phase. length (keep (λ r. is_phase external_irreversible phase r) rs) in
    let orphans = detect_orphan_prepares sort rs in
    record {
      prepare = count "prepare";
      commit = count "commit";
      abort = count "abort";
      orphans = orphans;
      n_orphans = length orphans;
    }
