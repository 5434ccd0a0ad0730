-- ===== src/Store/Continued.antt =====
-- What a stored continuation record holds (`_validate_continuation`, `find_continuation`,
-- ugk/storage/store.py).
use ugk.Base.{
  String, true, false, Option, none, some, List, [], ◌∷◌, ◌++◌, ◌≡◌, refl, ◌==◌, arith,
  if◌then◌else◌, Bool-cases, inl, inr, All,
}
use ugk.Json.{Json, obj, Fields}
use ugk.Crypto.{Hash}
use ugk.Store.Receipt.{Receipt, ContinuationColumns}
use ugk.Store.Attempt.{returned, ◌>>◌, >>=-returned}
use ugk.Store.Emit.{validate_continuation, continuation_id_of, columns_of, check_continuation}
use ugk.Store.Continuation.{bears, last_bearing, find_continuation}

-- The columns are those of the record, with the id that it carries or that is recomputed.
pub validate_continuation-columns :
    (hash : Hash) (dumps : Json → String) (c : Fields) (k : ContinuationColumns)
    → validate_continuation hash dumps (obj c) ≡ returned k
    → (cid : Json) × (continuation_id_of hash dumps c ≡ returned cid)
      × (columns_of hash dumps c cid ≡ k)
unfolding validate_continuation
validate_continuation-columns hash dumps c k h =
    let (cid, e, h1) =
      >>=-returned (check_continuation hash dumps c >> continuation_id_of hash dumps c)
        (λ cid. returned (columns_of hash dumps c cid)) k h in
    let (t, e0, e1) =
      >>=-returned (check_continuation hash dumps c) (λ _. continuation_id_of hash dumps c) cid e in
    (cid, e1, (ground arith))

last_bearing-last :
    (id : String) (rows : List Receipt) (latest : Option Receipt) (r : Receipt)
    → bears id r ≡ true
    → last_bearing id latest (rows ++ r ∷ []) ≡ some r
unfolding last_bearing
last_bearing-last id [] latest r h = rw h refl
last_bearing-last id (x ∷ rows) latest r h =
    last_bearing-last id rows (if bears id x then some x else latest) r h

-- The last row, where it has this id, is the one that is found.
pub find_continuation-last :
    (id : String) (rows : List Receipt) (r : Receipt)
    → (id == "") ≡ false
    → bears id r ≡ true
    → find_continuation id (rows ++ r ∷ []) ≡ some r
unfolding find_continuation
find_continuation-last id rows r n h = rw n (last_bearing-last id rows none r h)

last_bearing-append :
    (id : String) (rows later : List Receipt) (latest : Option Receipt)
    → last_bearing id latest (rows ++ later) ≡ last_bearing id (last_bearing id latest rows) later
unfolding last_bearing
last_bearing-append id [] later latest = refl
last_bearing-append id (x ∷ rows) later latest =
    last_bearing-append id rows later (if bears id x then some x else latest)

last_bearing-keeps :
    (id : String) (P : Receipt → Type 0) (later : List Receipt) (q : Receipt)
    → P q
    → All (λ r. bears id r ≡ true → P r) later
    → (r : Receipt) × (last_bearing id (some q) later ≡ some r) × P r
unfolding last_bearing
last_bearing-keeps id P [] q h all = (q, refl, h)
last_bearing-keeps id P (x ∷ later) q h (first, all) = elim (Bool-cases (bears id x)) [
  | inl e ↦ rw e (last_bearing-keeps id P later x (first e) all)
  | inr e ↦ rw e (last_bearing-keeps id P later q h all)
]

-- The one found stays one with a property, when every later row with the id has it.
pub find_continuation-keeps :
    (id : String) (P : Receipt → Type 0) (rows later : List Receipt) (q : Receipt)
    → find_continuation id rows ≡ some q
    → P q
    → All (λ r. bears id r ≡ true → P r) later
    → (r : Receipt) × (find_continuation id (rows ++ later) ≡ some r) × P r
unfolding find_continuation
find_continuation-keeps id P rows later q f h all = elim (Bool-cases (id == "")) [
  | inl e ↦ absurd (ground (arith, e, f))
  | inr e ↦
      let found : last_bearing id none rows ≡ some q = ground (arith, e, f) in
      rw (e, last_bearing-append id rows later none, found) (last_bearing-keeps id P later q h all)
]
