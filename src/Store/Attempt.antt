-- ===== src/Store/Attempt.antt =====
-- What a call of the store gives: a value, or the exception that it raises (ugk/storage/store.py).
use ugk.Base.{String, ◌≡◌, refl}

pub data Exception : Type 0 where
  value_error : String → Exception
  type_error : Exception
  key_error : Exception
  attribute_error : Exception
  effect_domain_error : String → Exception
  reserved_outcome_error : String → Exception
  runtime_error : String → Exception
  read_only_violation : Exception
  database_error : Exception
  transaction_commit_error : Exception
  external_effect_not_performed : Exception
  effect_error : Exception

pub data Attempt (A : Type 0) : Type 0 where
  raised : Exception → Attempt A
  returned : A → Attempt A

infixl 5 ◌>>=◌ ◌>>◌
abbrev pub ◌>>=◌ : {A B : Type 0} → Attempt A → (A → Attempt B) → Attempt B
(raised e) >>= f = raised e
(returned a) >>= f = f a

abbrev pub ◌>>◌ : {A B : Type 0} → Attempt A → Attempt B → Attempt B
m >> k = m >>= λ _. k

-- A chain returned a value: its first call did, and so did the rest.
pub >>=-returned :
    {A B : Type 0} (m : Attempt A) (f : A → Attempt B) (b : B)
    → (m >>= f) ≡ returned b
    → (a : A) × (m ≡ returned a) × (f a ≡ returned b)
>>=-returned (returned a) f b h = (a, refl, h)
>>=-returned (raised e) f b h = cc
