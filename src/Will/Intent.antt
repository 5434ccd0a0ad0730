-- ===== src/Will/Intent.antt =====
-- Declarations of intent, their revocation, and the store of both (ugk/intent.py).
use ugk.Base.{
  String, Bool, true, false, Option, none, some, List, [], ◌∷◌, ◌++◌, ◌==◌, not, ◌&&◌, ◌||◌, any,
  keep, find, map, if◌then◌else◌,
}
use ugk.Base.Names.{elem}
use ugk.Json.{text, arr, obj, field, end}
use ugk.Crypto.{Hash}
use ugk.Fga.Terminal.{texts}
use ugk.Store.Write.{Fault, no_fault, at_insert, at_commit}

pub record IntentDeclaration : Type 0 where
  pub declaration_hash : String
  pub declared_ops : List String
  pub scope_type : String
  pub scope_ref : String
  pub authority : String
  pub timestamp : String

-- `set(names)`, as the list of its members.
distinct : List String → List String
distinct [] = []
distinct (x ∷ xs) = let rest = distinct xs in if elem x rest then rest else x ∷ rest

-- The digest of every other field.
unfoldable pub declaration_digest : Hash → IntentDeclaration → String
unfolding texts
declaration_digest h d = h.sha256 (
    h.storage_json (
      obj (
        field "authority" (text d.authority) (
          field "declared_ops" (arr (texts d.declared_ops)) (
            field "scope_ref" (text d.scope_ref) (
              field "scope_type" (text d.scope_type) (field "timestamp" (text d.timestamp) end))))))
    ∷ [])

-- `IntentDeclaration.create`; `sorted` is Python's.
unfoldable pub create :
    Hash
    → (List String → List String)
    → List String
    → String
    → String
    → String
    → String
    → IntentDeclaration
unfolding distinct
create h sorted declared_ops authority scope_type scope_ref timestamp =
    let unsigned : IntentDeclaration = record {
      declaration_hash = "";
      declared_ops = sorted (distinct declared_ops);
      scope_type = scope_type;
      scope_ref = scope_ref;
      authority = authority;
      timestamp = timestamp;
    } in
    record unsigned { declaration_hash = declaration_digest h unsigned }

unfoldable pub verify_hash : Hash → IntentDeclaration → Bool
verify_hash h d = declaration_digest h d == d.declaration_hash

unfoldable pub covers_op : IntentDeclaration → String → Bool
covers_op d op = elem op d.declared_ops

pub record IntentRevocation : Type 0 where
  pub revocation_hash : String
  pub revoked_declaration_hash : String
  pub authority : String
  pub timestamp : String

unfoldable pub create_revocation : Hash → String → String → String → IntentRevocation
create_revocation h revoked authority timestamp = record {
  revocation_hash = h.sha256 (
      h.storage_json (
        obj (
          field "authority" (text authority) (
            field "revoked_declaration_hash" (text revoked)
              (field "timestamp" (text timestamp) end))))
      ∷ []);
  revoked_declaration_hash = revoked;
  authority = authority;
  timestamp = timestamp;
}

-- A row of the table of declarations.
pub record Row : Type 0 where
  pub declaration : IntentDeclaration
  pub revoked : Bool

pub record IntentStore : Type 0 where
  pub rows : List Row
  pub revocations : List IntentRevocation

unfoldable pub has_hash : String → Row → Bool
has_hash hash row = row.declaration.declaration_hash == hash

-- `INSERT OR IGNORE` under the primary key.
unfoldable pub insert_row : Row → List Row → List Row
unfolding has_hash
insert_row row rows =
    if any (λ r. has_hash row.declaration.declaration_hash r) rows then rows else rows ++ row ∷ []

insert_revocation : IntentRevocation → List IntentRevocation → List IntentRevocation
insert_revocation v vs =
    if any (λ u. u.revocation_hash == v.revocation_hash) vs then vs else vs ++ v ∷ []

-- Every exception is swallowed; a commit that fails leaves the row in the open transaction.
unfoldable pub declare : Fault → IntentStore → IntentDeclaration → IntentStore
declare at_insert store d = store
declare no_fault store d = record store {
  rows = insert_row (record { declaration = d; revoked = false }) store.rows;
}
declare at_commit store d = record store {
  rows = insert_row (record { declaration = d; revoked = false }) store.rows;
}

-- `UPDATE intent_declarations SET revoked=1 WHERE declaration_hash=?`
unfoldable pub mark : String → Row → Row
unfolding has_hash
mark hash row = if has_hash hash row then record row { revoked = true } else row

-- Where a revocation fails: as a write does, or at the update behind the row of the revocation.
pub data RevokeFault : Type 0 where
  of_write : Fault → RevokeFault
  at_update : RevokeFault

-- Every exception is swallowed. The authority of the revocation is not compared with the declaration's.
unfoldable pub revoke : RevokeFault → IntentStore → IntentRevocation → IntentStore
unfolding insert_revocation
revoke (of_write at_insert) store v = store
revoke (of_write no_fault) store v = record {
  rows = map (λ row. mark v.revoked_declaration_hash row) store.rows;
  revocations = insert_revocation v store.revocations;
}
revoke (of_write at_commit) store v = record {
  rows = map (λ row. mark v.revoked_declaration_hash row) store.rows;
  revocations = insert_revocation v store.revocations;
}
revoke at_update store v = record store { revocations = insert_revocation v store.revocations }

-- `_row_to_declaration`
unfoldable pub read_row : (List String → List String) → Row → IntentDeclaration
read_row sorted row = record row.declaration { declared_ops = sorted row.declaration.declared_ops }

read_found : (List String → List String) → Option Row → Option IntentDeclaration
read_found sorted none = none
read_found sorted (some row) = some (read_row sorted row)

-- `IntentStore.get`: a revoked declaration is found too.
unfoldable pub get_declaration :
    (List String → List String) → IntentStore → String → Option IntentDeclaration
unfolding read_found
get_declaration sorted store hash = read_found sorted (find (λ r. has_hash hash r) store.rows)

revoked_in : Option Row → Bool
revoked_in none = false
revoked_in (some row) = row.revoked

unfoldable pub is_revoked : IntentStore → String → Bool
unfolding revoked_in
is_revoked store hash = revoked_in (find (λ r. has_hash hash r) store.rows)

unfoldable pub is_active : String → Row → Bool
is_active scope_ref row =
    not row.revoked && (row.declaration.scope_ref == "" || row.declaration.scope_ref == scope_ref)

unfoldable pub active_declarations :
    (List String → List String) → IntentStore → String → List IntentDeclaration
unfolding is_active
active_declarations sorted store scope_ref =
    map (λ row. read_row sorted row) (keep (λ row. is_active scope_ref row) store.rows)

unfoldable pub all_declarations : (List String → List String) → IntentStore → List IntentDeclaration
all_declarations sorted store = map (λ row. read_row sorted row) store.rows
