-- ===== src/Kernel/Request.antt =====
-- What a call of `execute` is given, and what the kernel holds that the call does not change
-- (`GovernanceKernel.__init__`, `execute`, ugk/kernel.py; `AuthorityModel`,
-- ugk/authority/authority_model.py).
use ugk.Base.{ℕ, String, Bool, false, Option, none, some, List}
use ugk.Base.Dict.{Dict}
use ugk.Json.{Json, null, Fields, Items}
use ugk.Crypto.{Ed25519}
use ugk.Store.Write.{WriteCall, Fault}
use ugk.Will.Intent.{IntentStore}
use ugk.Cgp.Sufficiency.{PolicyEntry}
use ugk.Kernel.Node.{Effect}

pub data EffectAtomicity : Type 0 where
  pure store_local external_reversible external_irreversible non_atomic : EffectAtomicity

-- What the gate answers, or that it raises; a gate is taken not to touch the store.
pub data Gate : Type 0 where
  admits denies fails : Gate

pub record AuthorityModel : Type 0 where
  pub require_gate : Bool
  pub require_warrant : Bool

-- `active` is the status `ACTIVE`; `key_unset` is the test of the sentinel key; `sortable` and
-- `sort_items` are Python's `sorted`, `canonical` the `canonical_json` of ugk/storage/binding.py.
pub record Governance : Type 0 where
  pub authority : String
  pub active : Bool
  pub law_hash : String
  pub legend_hash : String
  pub session_dkn : String
  pub require_governor_sig : Bool
  pub governor_key : String
  pub key_unset : Bool
  pub ed25519 : Ed25519
  pub canonical : Json → String
  pub kernel_ops : List String
  pub universal_ops : List String
  pub governance_ops : List String
  pub authority_model : Option AuthorityModel
  pub will_store : Option IntentStore
  pub require_intent : Bool
  pub require_scoped_intent : Bool
  pub op_csil_registry : Dict ℕ
  pub policy : List PolicyEntry
  pub sortable : Items → Bool
  pub sort_items : Items → Items
  pub warrant_fault : Fault
  pub clock : String
  pub now : Json

pub record Request : Type 0 where
  pub op : String
  pub authority : Json
  pub parameters : Json
  pub gate : Option Gate
  pub effect : Option Effect
  pub effect_atomicity : Option EffectAtomicity
  pub idempotency_key : Json
  pub gate_margin : Json
  pub layer : String
  pub jurisdiction : String
  pub governor_sig : Option String
  pub warrant_basis : Json
  pub intent_ref : String
  pub authority_set : Json
  pub capability_verdicts : Dict String
  pub required_locality : Option String

-- A write of the kernel, with what it leaves out at its default.
unfoldable pub kernel_call :
    Governance → String → String → Fields → Bool → String → String → String → WriteCall
kernel_call c op authority parameters failed intent jurisdiction legend_hash = record {
  op = op;
  authority = authority;
  parameters = parameters;
  failed = failed;
  intent = some intent;
  jurisdiction = jurisdiction;
  confidence = "high";
  session_dkn = c.session_dkn;
  law_hash = c.law_hash;
  legend_hash = legend_hash;
  warrant_id = "";
  intent_ref = "";
  commit_terminal_outcome = false;
  terminal_outcome_override = none;
  commit_capability_evidence = false;
  capability_evidence = none;
  effect_columns = none;
  reconciliation_grade = null;
  reconciliation_warrant_snapshot = null;
  continuation = null;
  bridge = null;
  bridge_verifier = none;
  now = c.now;
}
