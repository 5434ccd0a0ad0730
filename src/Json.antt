-- ===== src/Json.antt =====
-- JSON values as Python holds them: the parameters of a receipt, and what the digests are taken of.
use ugk.Base.{
  ℕ, String, Bool, true, false, ◌≡◌, refl, arith, ◌&&◌, ◌||◌, ◌==◌, eq_iff, nat_eq, ap, ==_refl,
  if◌then◌else◌,
}

-- A float carries its text, and `opaque` is a Python object that `json.dumps` refuses.
mutual
  pub data Json : Type 0 where
    null : Json
    bool : Bool → Json
    int : ℕ → Json
    negative : ℕ → Json
    float : String → Json
    text : String → Json
    arr : Items → Json
    obj : Fields → Json
    opaque : String → Json

  pub data Items : Type 0 where
    nil : Items
    cons : Json → Items → Items

  pub data Fields : Type 0 where
    end : Fields
    field : String → Json → Fields → Fields

-- `d.get(k)`, with `None` for a key that is not there.
unfoldable pub get : String → Fields → Json
get k end = null
get k (field j v fs) = if j == k then v else get k fs

-- `k in d`
unfoldable pub has : String → Fields → Bool
has k end = false
has k (field j v fs) = j == k || has k fs

-- `d[k] = v`
unfoldable pub set : String → Json → Fields → Fields
set k v end = field k v end
set k v (field j w fs) = if j == k then field k v fs else field j w (set k v fs)

-- `{j: v for j, v in d.items() if keep(j)}`
unfoldable pub keep_fields : (String → Bool) → Fields → Fields
keep_fields keep end = end
keep_fields keep (field j v fs) =
    let rest = keep_fields keep fs in if keep j then field j v rest else rest

abbrev pub is_null : Json → Bool
is_null null = true
is_null _ = false

bool_eq : Bool → Bool → Bool
bool_eq true b = b
bool_eq false true = false
bool_eq false false = true

-- `==` of Python, on values that a canonical encoding has put in order.
unfoldable mutual
  unfolding bool_eq

  pub json_eq : Json → Json → Bool
  json_eq null null = true
  json_eq (bool a) (bool b) = bool_eq a b
  json_eq (int a) (int b) = nat_eq a b
  json_eq (negative a) (negative b) = nat_eq a b
  json_eq (float a) (float b) = a == b
  json_eq (text a) (text b) = a == b
  json_eq (arr a) (arr b) = items_eq a b
  json_eq (obj a) (obj b) = fields_eq a b
  json_eq (opaque a) (opaque b) = a == b
  json_eq _ _ = false

  pub items_eq : Items → Items → Bool
  items_eq nil nil = true
  items_eq (cons x xs) (cons y ys) = json_eq x y && items_eq xs ys
  items_eq _ _ = false

  pub fields_eq : Fields → Fields → Bool
  fields_eq end end = true
  fields_eq (field j v fs) (field k w gs) = j == k && json_eq v w && fields_eq fs gs
  fields_eq _ _ = false

-- Does `json.dumps` accept the value?
unfoldable mutual
  pub serializable : Json → Bool
  serializable (opaque x) = false
  serializable (arr xs) = serializable_items xs
  serializable (obj fs) = serializable_fields fs
  serializable _ = true

  pub serializable_items : Items → Bool
  serializable_items nil = true
  serializable_items (cons x xs) = serializable x && serializable_items xs

  pub serializable_fields : Fields → Bool
  serializable_fields end = true
  serializable_fields (field k v fs) = serializable v && serializable_fields fs

bool_eq_refl : (b : Bool) → bool_eq b b ≡ true
unfolding bool_eq
bool_eq_refl b = ground arith

mutual
  unfolding json_eq

  eq_refl : (v : Json) → json_eq v v ≡ true
  eq_refl null = refl
  eq_refl (bool b) = bool_eq_refl b
  eq_refl (int n) = ground arith
  eq_refl (negative n) = ground arith
  eq_refl (float x) = ==_refl x
  eq_refl (text x) = ==_refl x
  eq_refl (arr xs) = items_refl xs
  eq_refl (obj fs) = fields_refl fs
  eq_refl (opaque x) = ==_refl x

  items_refl : (xs : Items) → items_eq xs xs ≡ true
  items_refl nil = refl
  items_refl (cons x xs) = rw (eq_refl x) (items_refl xs)

  fields_refl : (fs : Fields) → fields_eq fs fs ≡ true
  fields_refl end = refl
  fields_refl (field k v fs) = rw (==_refl k, eq_refl v) (fields_refl fs)

pub json_eq_refl : (v : Json) → json_eq v v ≡ true
json_eq_refl v = eq_refl v

-- A text equals only a text that is the same.
pub json_eq-text : (v : Json) (x : String) → json_eq v (text x) ≡ true → v ≡ text x
unfolding json_eq
json_eq-text (text y) x h = ap text ((eq_iff y x).0 h)
json_eq-text _ x h = cc
