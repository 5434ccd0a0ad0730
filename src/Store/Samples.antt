-- ===== src/Store/Samples.antt =====
-- A concrete world, receipts and a store, on which the theorems are applied. The digest is the second
-- of its parts, so that the receipts can be written down.
use ugk.Base.{
  String, true, false, none, List, [], ◌∷◌, ◌≢◌, refl, ◌==◌, arith, eq_iff, if◌then◌else◌, nat_eq,
}
use ugk.Json.{Json, null, text, obj, end, get, json_eq}
use ugk.Crypto.{Hash}
use ugk.Binding.Canon.{commit_s}
use ugk.Authority.Edge.{AuthorityEdge}
use ugk.Store.Receipt.{
  Receipt, Body, no_terminal, no_capability, no_effect, no_reconciliation, no_continuation,
  no_bridge,
}
use ugk.Store.Body.{compute_h_body}
use ugk.Store.World.{World}
use ugk.Store.Write.{WriteCall, Store}
use ugk.Store.Chain.{genesis}
use ugk.Store.Prepared.{NoEmptyDigest}
use ugk.Store.Growth.{IsConsistent}

abbrev pub digest : List String → String
digest [] = "0"
digest (t ∷ []) = "1"
digest (t ∷ x ∷ parts) = if x == "" then "2" else x

-- A canonical form that tells apart what the samples need told apart.
abbrev pub canonical : Json → String
canonical (obj fs) =
    if json_eq (get "reconciliation_grade" fs) (text "verified")
    then "graded"
    else if json_eq (get "effect_phase" fs) (text "prepare")
    then "prepared"
    else "plain"
canonical v = "plain"

abbrev pub hash : Hash
hash = record {
  sha256 = digest;
  canonical_json = canonical;
  storage_json = canonical;
  is_digest = λ h. true;
}

pub digest-nonempty : NoEmptyDigest hash
digest-nonempty [] = λ e. ground (arith, eq_iff "0" "")
digest-nonempty (t ∷ []) = λ e. ground (arith, eq_iff "1" "")
digest-nonempty (t ∷ x ∷ parts) = λ e. ground (arith, eq_iff x "", eq_iff "2" "")

abbrev pub edge_to : String → AuthorityEdge
edge_to name = record {
  unsigned = record {
    issuer = "Governor";
    subject = name;
    capability_set = "read" ∷ [];
    edge_time = 0;
    valid_until = 9;
    issuer_key_id = "key";
  };
  signature = "signed";
}

abbrev pub world : World
world = record {
  hash = hash;
  dumps = λ v. "{}";
  sorted = λ names. names;
  hexdigest = λ h. true;
  tag_byte = λ n. if nat_eq n 1 then "1" else "2";
  length_prefix = "20";
  freshness = null;
  phase_code = "phase";
  mosaic_root = "mosaic";
  sigma = "sigma";
  phi = "phi";
  policy_id = λ j. j;
  authority_key = λ a. a;
  graph = [];
  default_edge = edge_to;
  vocabulary = "read" ∷ [];
  id_c_s = "s";
  id_c_c = "c";
  id_c_m = "m";
  id_c_j = "j";
  schema_hash = "schema";
  codex_hash = "codex";
}

abbrev pub body : Body
body = record {
  op = "deploy";
  authority = "kernel";
  parameters = end;
  intent = "deploy";
  jurisdiction = "session";
  confidence = "high";
  timestamp = null;
  failed = false;
  session_dkn = "";
  law_hash = "law";
  legend_hash = "legend";
  warrant_id = "";
  intent_ref = "";
  h_s = "c_s.v1";
  h_c = "c_c.v1";
  h_m = "c_m.v1+sigma_0";
  h_j = "c_j.v1";
  h_r = "root.v1";
  parent_h_r = genesis;
  mode = "strict";
  version = 7;
  id_c_s = "s";
  id_c_c = "c";
  id_c_m = "m";
  id_c_j = "j";
  terminal = no_terminal;
  capability = no_capability;
  effect = no_effect;
  reconciliation = no_reconciliation;
  continuation = no_continuation;
  bridge = no_bridge;
}

abbrev pub row : Receipt
row = record { body = body; receipt_id = 0; h_body = "plain"; trace_vector_hash = null }

-- The same receipt, with a verified grade.
abbrev pub graded_row : Receipt
graded_row = record {
  body = record body {
    reconciliation = record {
      reconciliation_grade = text "verified";
      reconciliation_warrant_snapshot = null;
    };
  };
  receipt_id = 0;
  h_body = "graded";
  trace_vector_hash = null;
}

-- The same receipt, as the prepare of an effect.
abbrev pub effect_row : Receipt
effect_row = record {
  body = record body { effect = record no_effect { effect_phase = text "prepare" } };
  receipt_id = 0;
  h_body = "prepared";
  trace_vector_hash = null;
}

abbrev pub store_of : Receipt → Store
store_of r = record {
  rows = r ∷ [];
  prior_h_r = "root.v1";
  prior_h_m = none;
  prior_intent_ref = none;
  next_id = 1;
  read_only = false;
  txn_depth = 0;
}

abbrev pub store : Store
store = store_of row

abbrev root : String
root = "root.v1"

root_nonempty : root ≢ ""
root_nonempty = λ e. ground (arith, eq_iff "root.v1" "")

pub store-IsConsistent : IsConsistent world genesis store
unfolding commit_s compute_h_body json_eq get ugk.Store.Body.body_fields
    ugk.Store.Body.versioned_fields ugk.Store.Body.terminal_fields ugk.Store.Body.capability_fields
    ugk.Store.Body.effect_fields ugk.Store.Body.reconciliation_fields
store-IsConsistent = record {
  linked = (refl, root_nonempty, refl);
  ids = (omega arith, omega arith);
  written = ((refl, refl), tt);
}

pub graded_store-IsConsistent : IsConsistent world genesis (store_of graded_row)
unfolding commit_s compute_h_body json_eq get ugk.Store.Body.body_fields
    ugk.Store.Body.versioned_fields ugk.Store.Body.terminal_fields ugk.Store.Body.capability_fields
    ugk.Store.Body.effect_fields ugk.Store.Body.reconciliation_fields
graded_store-IsConsistent = record {
  linked = (refl, root_nonempty, refl);
  ids = (omega arith, omega arith);
  written = ((refl, refl), tt);
}

abbrev pub call : WriteCall
call = record {
  op = "deploy";
  authority = "kernel";
  parameters = end;
  failed = false;
  intent = none;
  jurisdiction = "session";
  confidence = "high";
  session_dkn = "";
  law_hash = "law";
  legend_hash = "legend";
  warrant_id = "";
  intent_ref = "";
  commit_terminal_outcome = true;
  terminal_outcome_override = none;
  commit_capability_evidence = false;
  capability_evidence = none;
  effect_columns = none;
  reconciliation_grade = null;
  reconciliation_warrant_snapshot = null;
  continuation = null;
  bridge = null;
  bridge_verifier = none;
  now = null;
}
