-- ===== src/Store/Emission.antt =====
-- Which terminal outcomes a receipt may commit (`_assert_emittable`,
-- ugk/storage/store.py).
use ugk.Base.{
  String, Bool, true, false, none, some, ◌==◌, ◌≡◌, ◌↔◌, ◌⊎◌, inl, inr, refl, arith, eq_iff, subst,
  String-cases,
}
use ugk.Base.Names.{elem}
use ugk.Json.{Json, obj, text, Fields, field, get, json_eq}
use ugk.Crypto.{Hash}
use ugk.Store.Receipt.{ContinuationColumns}
use ugk.Store.Attempt.{returned, ◌>>◌, >>=-returned}
use ugk.Store.Emit.{
  BridgeVerifier, assert_emittable, bridge_emittable, validate_continuation, emittable_outcomes,
}

abbrev HeldRecord : Hash → (Json → String) → Json → Type 0
HeldRecord hash dumps c =
    (fs : Fields) × (c ≡ obj fs)
    × (json_eq (get "state" fs) (text "HELD") ≡ true)
    × ((columns : ContinuationColumns) × (validate_continuation hash dumps c ≡ returned columns))

abbrev AcceptedBridge : Json → BridgeVerifier → Type 0
AcceptedBridge b verifier =
    (k : String) × (v : Json) × (fs : Fields) × (b ≡ obj (field k v fs))
    × ((accepts : Json → Bool) × (verifier ≡ some accepts) × (accepts b ≡ true))

-- An outcome that the store lets a receipt commit.
abbrev pub IsEmittable : Hash → (Json → String) → String → Json → Json → BridgeVerifier → Type 0
IsEmittable hash dumps outcome continuation bridge verifier =
    (elem outcome emittable_outcomes ≡ true)
    ⊎ ((outcome ≡ "DEFER") × HeldRecord hash dumps continuation)
    ⊎ ((outcome ≡ "BRIDGE") × AcceptedBridge bridge verifier)

held_test :
    (hash : Hash) (dumps : Json → String) (fs : Fields) (b : Json) (verifier : BridgeVerifier)
    → assert_emittable hash dumps "DEFER" (obj fs) b verifier ≡ returned tt
    → (json_eq (get "state" fs) (text "HELD") ≡ true)
      × ((validate_continuation hash dumps (obj fs) >> returned tt) ≡ returned tt)
unfolding assert_emittable elem
held_test hash dumps fs b verifier h = ground arith

deferred_record :
    (hash : Hash) (dumps : Json → String) (c b : Json) (verifier : BridgeVerifier)
    → assert_emittable hash dumps "DEFER" c b verifier ≡ returned tt
    → HeldRecord hash dumps c
unfolding assert_emittable elem
deferred_record hash dumps (obj fs) b verifier h =
    let (held, valid) = held_test hash dumps fs b verifier h in
    let (columns, e, _) = >>=-returned (validate_continuation hash dumps (obj fs)) _ tt valid in
    (fs, refl, held, (columns, e))
deferred_record hash dumps c b verifier h = cc

bridge_record :
    (hash : Hash) (dumps : Json → String) (c b : Json) (verifier : BridgeVerifier)
    → assert_emittable hash dumps "BRIDGE" c b verifier ≡ returned tt
    → AcceptedBridge b verifier
unfolding assert_emittable elem bridge_emittable
bridge_record hash dumps c (obj (field k v fs)) (some accepts) h =
    (k, v, fs, refl, (accepts, refl, ground arith))
bridge_record hash dumps c (obj (field k v fs)) none h = cc
bridge_record hash dumps c b verifier h = cc

other_outcome :
    (hash : Hash) (dumps : Json → String) (outcome : String) (c b : Json)
    (verifier : BridgeVerifier)
    → (outcome == "DEFER") ≡ false
    → (outcome == "BRIDGE") ≡ false
    → assert_emittable hash dumps outcome c b verifier ≡ returned tt
    → elem outcome emittable_outcomes ≡ true
unfolding assert_emittable
other_outcome hash dumps outcome c b verifier d e h = ground arith

emittable_cases :
    (outcome : String)
    → elem outcome emittable_outcomes ≡ true
    → (outcome ≡ "ADMIT") ⊎ (outcome ≡ "REFUSE") ⊎ (outcome ≡ "STRUCTURAL_ERROR")
unfolding elem
emittable_cases outcome h =
    ground
      (arith, eq_iff outcome "ADMIT", eq_iff outcome "REFUSE", eq_iff outcome "STRUCTURAL_ERROR")

emitted :
    (hash : Hash) (dumps : Json → String) (outcome : String) (c b : Json)
    (verifier : BridgeVerifier)
    → (outcome ≡ "ADMIT") ⊎ (outcome ≡ "REFUSE") ⊎ (outcome ≡ "STRUCTURAL_ERROR")
    → assert_emittable hash dumps outcome c b verifier ≡ returned tt
unfolding assert_emittable elem
emitted hash dumps outcome c b verifier (inl e) = rw e refl
emitted hash dumps outcome c b verifier (inr (inl e)) = rw e refl
emitted hash dumps outcome c b verifier (inr (inr e)) = rw e refl

emitted_defer :
    (hash : Hash) (dumps : Json → String) (fs : Fields) (b : Json) (verifier : BridgeVerifier)
    (columns : ContinuationColumns)
    → json_eq (get "state" fs) (text "HELD") ≡ true
    → validate_continuation hash dumps (obj fs) ≡ returned columns
    → assert_emittable hash dumps "DEFER" (obj fs) b verifier ≡ returned tt
unfolding assert_emittable elem
emitted_defer hash dumps fs b verifier columns h e = ground arith

emitted_bridge :
    (hash : Hash) (dumps : Json → String) (c : Json) (k : String) (v : Json) (fs : Fields)
    (accepts : Json → Bool)
    → accepts (obj (field k v fs)) ≡ true
    → assert_emittable hash dumps "BRIDGE" c (obj (field k v fs)) (some accepts) ≡ returned tt
unfolding assert_emittable elem bridge_emittable
emitted_bridge hash dumps c k v fs accepts h = rw h refl

to_emittable :
    (hash : Hash) (dumps : Json → String) (outcome : String) (c b : Json)
    (verifier : BridgeVerifier)
    → assert_emittable hash dumps outcome c b verifier ≡ returned tt
    → IsEmittable hash dumps outcome c b verifier
to_emittable hash dumps outcome c b verifier h = elim (String-cases outcome "DEFER") [
  | inl (t, e) ↦ inr (
      inl (
        e,
        deferred_record hash dumps c b verifier
            (subst (λ o. assert_emittable hash dumps o c b verifier ≡ returned tt) e h),
      ))
  | inr (t, n) ↦ elim (String-cases outcome "BRIDGE") [
    | inl (u, e) ↦ inr (
        inr (
          e,
          bridge_record hash dumps c b verifier
              (subst (λ o. assert_emittable hash dumps o c b verifier ≡ returned tt) e h),
        ))
    | inr (u, m) ↦ inl (other_outcome hash dumps outcome c b verifier t u h)
  ]
]

from_emittable :
    (hash : Hash) (dumps : Json → String) (outcome : String) (c b : Json)
    (verifier : BridgeVerifier)
    → IsEmittable hash dumps outcome c b verifier
    → assert_emittable hash dumps outcome c b verifier ≡ returned tt
from_emittable hash dumps outcome c b verifier (inl e) =
    emitted hash dumps outcome c b verifier (emittable_cases outcome e)
from_emittable hash dumps outcome c b verifier (inr (inl (e, (fs, r, held, (columns, v))))) =
    rw (e, r)
      (emitted_defer hash dumps fs b verifier columns held
        (subst (λ x. validate_continuation hash dumps x ≡ returned columns) r v))
from_emittable hash dumps outcome c b verifier (inr (inr (e, (k, v, fs, r, (accepts, s, a))))) =
    rw (e, r, s) (emitted_bridge hash dumps c k v fs accepts (subst (λ x. accepts x ≡ true) r a))

-- An outcome may be committed exactly when it is ADMIT, REFUSE or STRUCTURAL_ERROR, or DEFER with a
-- continuation record that is held and valid, or BRIDGE with a surface that a verifier is there for
-- and accepts; CRISIS never may.
pub assert_emittable-IsEmittable :
    (hash : Hash) (dumps : Json → String) (outcome : String) (continuation bridge : Json)
    (verifier : BridgeVerifier)
    → assert_emittable hash dumps outcome continuation bridge verifier ≡ returned tt
      ↔ IsEmittable hash dumps outcome continuation bridge verifier
assert_emittable-IsEmittable hash dumps outcome c b verifier =
    (to_emittable hash dumps outcome c b verifier, from_emittable hash dumps outcome c b verifier)
