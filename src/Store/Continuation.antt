-- ===== src/Store/Continuation.antt =====
-- The stored continuation records (`committed_height`, `find_continuation`, `continuation_expired`,
-- ugk/storage/store.py).
use ugk.Base.{
  ℕ, String, Bool, true, false, Option, none, some, List, [], ◌∷◌, ◌==◌, not, ◌||◌, leb, length,
  if◌then◌else◌,
}
use ugk.Json.{Json, null, bool, int, negative, text, obj, get, has, json_eq}
use ugk.Store.Receipt.{Receipt}
use ugk.Store.Effect.{hashable}
use ugk.Store.Attempt.{
  Attempt, raised, returned, value_error, type_error, key_error, attribute_error, ◌>>=◌,
}

-- `loads` is `json.loads`, `to_int` Python's `int` of what is no `int`, where a negative one is 0,
-- which is below no height either.
pub record Reader : Type 0 where
  pub loads : String → Attempt Json
  pub to_int : Json → Attempt ℕ

unfoldable pub committed_height : List Receipt → ℕ
committed_height rows = length rows

abbrev pub bears : String → Receipt → Bool
bears id r = json_eq r.continuation.continuation_id (text id)

unfoldable pub last_bearing : String → Option Receipt → List Receipt → Option Receipt
last_bearing id latest [] = latest
last_bearing id latest (r ∷ rs) = last_bearing id (if bears id r then some r else latest) rs

-- The latest receipt with this id.
unfoldable pub find_continuation : String → List Receipt → Option Receipt
unfolding last_bearing
find_continuation id rows = if id == "" then none else last_bearing id none rows

int_value : Reader → Json → Attempt ℕ
int_value p (int n) = returned n
int_value p (negative n) = returned 0
int_value p (bool true) = returned 1
int_value p (bool false) = returned 0
int_value p v = p.to_int v

is_committed : Json → List Json → Bool
is_committed v [] = false
is_committed v (t ∷ ts) = json_eq v t || is_committed v ts

basis_expired : Reader → ℕ → List Json → Json → Attempt Bool
unfolding int_value is_committed
basis_expired p height triggers (obj eb) =
    if json_eq (get "kind" eb) (text "receipt_height")
    then (if has "value" eb
        then (int_value p (get "value" eb) >>= λ n. returned (leb n height))
        else raised key_error)
    else if json_eq (get "kind" eb) (text "explicit_trigger")
    then (if not (has "value" eb)
        then raised key_error
        else if not (hashable (get "value" eb))
        then raised type_error
        else returned (is_committed (get "value" eb) triggers))
    else raised (value_error "unknown continuation expiry kind")
basis_expired p height triggers _ = raised attribute_error

unfoldable pub continuation_expired : Reader → Json → ℕ → List Json → Attempt Bool
unfolding basis_expired
continuation_expired p null height triggers = returned false
continuation_expired p (text s) height triggers = p.loads s >>= basis_expired p height triggers
continuation_expired p v height triggers = basis_expired p height triggers v
