-- ===== src/Governance/Warrant.antt =====
-- Decision warrants, content-addressed, and their append-only store (ugk/governance/warrant.py).
use ugk.Base.{
  ℕ, zero, suc, String, Bool, false, Option, none, some, List, [], ◌∷◌, ◌++◌, ◌==◌, not, ◌||◌, any,
  find, if◌then◌else◌,
}
use ugk.Base.Names.{elem}
use ugk.Json.{Json, text, int, arr, obj, field, end, Items, json_eq}
use ugk.Crypto.{Hash}
use ugk.Store.Write.{Fault, no_fault, at_insert, at_commit}

pub record DecisionWarrant : Type 0 where
  pub warrant_hash : String
  pub prior_warrant_hash : String
  pub constitutional_basis : Items
  pub authority_result : ℕ
  pub jurisdiction_result : ℕ
  pub result : ℕ
  pub law_hash : String
  pub legend_hash : String
  pub timestamp : String

abbrev pub result_admit : ℕ
result_admit = 9001

abbrev pub result_refuse : ℕ
result_refuse = 9002

abbrev pub analysis_auth_sufficient : ℕ
analysis_auth_sufficient = 9101

abbrev pub analysis_juris_valid : ℕ
analysis_juris_valid = 9102

abbrev pub genesis_warrant_hash : String
genesis_warrant_hash = "0000000000000000000000000000000000000000000000000000000000000000"

unfoldable pub body_dict : DecisionWarrant → Json
body_dict w = obj (
    field "authority_result" (int w.authority_result) (
      field "constitutional_basis" (arr w.constitutional_basis) (
        field "jurisdiction_result" (int w.jurisdiction_result) (
          field "law_hash" (text w.law_hash) (
            field "legend_hash" (text w.legend_hash) (
              field "prior_warrant_hash" (text w.prior_warrant_hash)
                (field "result" (int w.result) (field "timestamp" (text w.timestamp) end))))))))

unfoldable pub warrant_digest : Hash → DecisionWarrant → String
unfolding body_dict
warrant_digest h w = h.sha256 (h.storage_json (body_dict w) ∷ [])

-- `DecisionWarrant.create` with the default links; `sort` is Python's `sorted` on a list that it can
-- sort.
unfoldable pub create_warrant :
    Hash → (Items → Items) → Items → String → String → ℕ → String → DecisionWarrant
create_warrant h sort basis law_hash legend_hash result timestamp =
    let unsigned : DecisionWarrant = record {
      warrant_hash = "";
      prior_warrant_hash = genesis_warrant_hash;
      constitutional_basis = sort basis;
      authority_result = analysis_auth_sufficient;
      jurisdiction_result = analysis_juris_valid;
      result = result;
      law_hash = law_hash;
      legend_hash = legend_hash;
      timestamp = timestamp;
    } in
    record unsigned { warrant_hash = warrant_digest h unsigned }

unfoldable pub verify_warrant_hash : Hash → DecisionWarrant → Bool
verify_warrant_hash h w = w.warrant_hash == warrant_digest h w

-- The rows of the table, in the order of insertion.
abbrev pub WarrantStore : Type 0
WarrantStore = List DecisionWarrant

abbrev pub has_warrant_hash : String → DecisionWarrant → Bool
has_warrant_hash hash w = w.warrant_hash == hash

read_found : (Items → Items) → Option DecisionWarrant → Option DecisionWarrant
read_found sort none = none
read_found sort (some w) = some (record w { constitutional_basis = sort w.constitutional_basis })

-- `WarrantStore.get`: a row's basis is sorted again when it is read.
unfoldable pub get_warrant : (Items → Items) → WarrantStore → String → Option DecisionWarrant
unfolding read_found
get_warrant sort store hash = read_found sort (find (λ w. has_warrant_hash hash w) store)

-- `INSERT OR IGNORE` under the primary key.
unfoldable pub insert_warrant : DecisionWarrant → WarrantStore → WarrantStore
insert_warrant w store =
    if any (λ v. has_warrant_hash w.warrant_hash v) store then store else store ++ w ∷ []

materialized : DecisionWarrant → Option DecisionWarrant → Bool
materialized w none = false
materialized w (some stored) = json_eq (body_dict stored) (body_dict w)

-- `WarrantStore.write`: the hash where the warrant can be read again, or `none` where a
-- `WarrantStoreError` is raised.
unfoldable pub write_warrant :
    Hash → (Items → Items) → Fault → WarrantStore → DecisionWarrant → Option String × WarrantStore
unfolding materialized
write_warrant h sort at_insert store w = (none, store)
write_warrant h sort at_commit store w =
    if verify_warrant_hash h w then (none, insert_warrant w store) else (none, store)
write_warrant h sort no_fault store w =
    let after = insert_warrant w store in
    if not (verify_warrant_hash h w)
    then (none, store)
    else if materialized w (get_warrant sort after w.warrant_hash)
    then (some w.warrant_hash, after)
    else (none, after)

-- The loop of `lineage_from`: the warrants behind a hash, the latest first. `visited` has the hashes
-- that were looked up.
unfoldable pub lineage_loop :
    ℕ → (Items → Items) → WarrantStore → List String → String → List DecisionWarrant
lineage_loop zero sort store visited current = []
lineage_loop (suc depth) sort store visited current =
    let again = lineage_loop depth sort store (current ∷ visited) in
    if current == "" || current == genesis_warrant_hash || elem current visited
    then []
    else elim (get_warrant sort store current) [
      | none ↦ []
      | some w ↦ w ∷ again w.prior_warrant_hash
    ]

-- At most `max_depth` of them.
unfoldable pub lineage_from : (Items → Items) → WarrantStore → String → ℕ → List DecisionWarrant
unfolding lineage_loop
lineage_from sort store hash max_depth = lineage_loop max_depth sort store [] hash
