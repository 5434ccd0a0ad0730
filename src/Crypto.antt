-- ===== src/Crypto.antt =====
-- What the program takes from outside: Ed25519 (the vendored ugk/vendor/ed25519.py), `json` and
-- `hashlib`. They are parameters of the model.
use ugk.Base.{String, Bool, Option, List}
use ugk.Json.{Json}

pub record Ed25519 : Type 0 where
  -- message, signature, public key; `none` is a raised exception
  pub verify : String → String → String → Option Bool

pub record Hash : Type 0 where
  -- the digest of the concatenation of the parts, as a text
  pub sha256 : List String → String
  -- `_canonical_json` of ugk/storage/binding_m2.py
  pub canonical_json : Json → String
  -- `canonical_json` of ugk/storage/binding.py
  pub storage_json : Json → String
  -- Is the text one of 32 bytes?
  pub is_digest : String → Bool
