-- ===== src/Kernel/Tests.antt =====
-- `execute` and the governed acts on trails (ugk/kernel.py), on the samples of the store.
use ugk.Base.{true, false, none, some, [], ◌∷◌, ◌≡◌, ◌≢◌, ◌⊎◌, ◌↔◌, arith, eq_iff}
use ugk.Json.{null, text, end}
use ugk.Store.Write.{no_fault, at_insert}
use ugk.Store.Samples.{world, store}
use ugk.Will.Intent.{IntentDeclaration, IntentRevocation, IntentStore, of_write, revoke}
use ugk.Kernel.Node.{Node, Effect, gave, performed, Trail, irreversible_call}
use ugk.Kernel.Irreversible.{execute_external_irreversible}
use ugk.Kernel.Order.{ActsOnce, NotCalled, execute_external_irreversible-ActsOnce}
use ugk.Kernel.Request.{Governance, Request, admits, pure}
use ugk.Kernel.Preflight.{Accepted}
use ugk.Kernel.Horizon.{horizon, intent_verdict}
use ugk.Kernel.Screen.{IsRefusal}
use ugk.Kernel.Admit.{Admission}
use ugk.Kernel.Execute.{execute, execute_seam}
use ugk.Kernel.Called.{Behind}
use ugk.Kernel.Before.{IsAdmit, execute-Behind}
use ugk.Kernel.Atomic.{AllOrAbort, execute_seam-AllOrAbort}
use ugk.Kernel.Graded.{Listing, Finding, text_of}
use ugk.Kernel.Reconcile.{
  irreversible_target, forward_target, compensation_target, reconcile_external_irreversible,
  reconcile_external_reversible_forward, reconcile_external_reversible_compensation,
}
use ugk.Kernel.Governed.{
  IsGuarded, named_prepare, named_forward, named_compensate, reconcile-IsGuarded,
}
use ugk.Kernel.Compensate.{Compensation, compensate_external_reversible}
use ugk.Kernel.Offset.{OffsetsOnce, compensate_external_reversible-OffsetsOnce}
use ugk.Kernel.Passes.{IsAdmissible, horizon-IsAdmissible}
use ugk.Kernel.Withdrawn.{intent_verdict-revoke}

abbrev pub node : Node
node = record {
  store = store;
  faults = no_fault ∷ at_insert ∷ [];
  acts = [];
  warrants = none;
  refused = ("I", 0) ∷ [];
}

abbrev trail : Trail
trail = record {
  op = "deploy";
  authority = "kernel";
  parameters = end;
  idempotency_key = text "k";
  jurisdiction = "session";
  intent_ref = "";
  warrant_id = "";
  session_dkn = "";
  law_hash = "law";
  legend_hash = "legend";
  now = null;
}

abbrev pub returns : Effect
returns = λ s. (performed, s)

execute_external_irreversible-ActsOnce_example :
    NotCalled node (execute_external_irreversible world trail returns "admit" node)
    ⊎ ActsOnce world
        (irreversible_call trail)
        returns
        "admit"
        node
        (execute_external_irreversible world trail returns "admit" node).1
execute_external_irreversible-ActsOnce_example =
    execute_external_irreversible-ActsOnce world trail returns "admit" node

abbrev pub session : Governance
session = record {
  authority = "kernel";
  active = true;
  law_hash = "law";
  legend_hash = "legend";
  session_dkn = "session-1";
  require_governor_sig = false;
  governor_key = "key";
  key_unset = false;
  ed25519 = record { verify = λ m s k. some true };
  canonical = λ v. "{}";
  kernel_ops = "gate_admit" ∷ [];
  universal_ops = "session_open" ∷ [];
  governance_ops = "deploy" ∷ [];
  authority_model = none;
  will_store = none;
  require_intent = true;
  require_scoped_intent = false;
  op_csil_registry = [];
  policy = [];
  sortable = λ items. true;
  sort_items = λ items. items;
  warrant_fault = no_fault;
  clock = "t";
  now = null;
}

abbrev request : Request
request = record {
  op = "deploy";
  authority = null;
  parameters = null;
  gate = some admits;
  effect = some returns;
  effect_atomicity = some pure;
  idempotency_key = null;
  gate_margin = null;
  layer = "I";
  jurisdiction = "session";
  governor_sig = none;
  warrant_basis = null;
  intent_ref = "narrow";
  authority_set = null;
  capability_verdicts = [];
  required_locality = some "session";
}

abbrev accepted : Accepted
accepted = record { authority = "kernel"; parameters = end }

execute-Behind_example :
    IsRefusal node (execute world session request node)
    ⊎ Behind IsAdmit node.store.rows node.acts (execute world session request node).1.acts
execute-Behind_example = execute-Behind world session request node

abbrev admission : Admission
admission = record { intent_ref = "narrow"; admit_ref = "admit"; warrant_id = "" }

execute_seam-AllOrAbort_example :
    AllOrAbort "deploy" returns node
      (execute_seam world session request accepted admission pure returns node)
execute_seam-AllOrAbort_example =
    execute_seam-AllOrAbort world session request accepted admission pure returns node

horizon-IsAdmissible_example :
    (horizon world session request accepted node ≡ (gave "narrow", node))
    ↔ IsAdmissible world session request accepted "narrow"
horizon-IsAdmissible_example = horizon-IsAdmissible world session request accepted node "narrow"

abbrev listing : Listing
listing = record {
  prepares = λ os. os;
  forward = λ os. os;
  compensates = λ os. os;
  blank = λ s. false;
}

abbrev finding : Finding
finding = record {
  reference = text "root.v1";
  determination = text "performed";
  evidence_ref = text "invoice";
  authority = text "auditor";
  jurisdiction = "session";
  intent_ref = "";
  warrant_id = "";
  verified = false;
}

reconcile-IsGuarded_example :
    IsGuarded world session listing finding
      (irreversible_target (named_prepare listing finding node))
      node
      (reconcile_external_irreversible world session listing finding node)
    × IsGuarded world session listing finding
        (forward_target (named_forward listing finding node))
        node
        (reconcile_external_reversible_forward world session listing finding node)
    × IsGuarded world session listing finding
        (compensation_target node.store.rows
          (text_of finding.reference)
          (named_compensate listing finding node))
        node
        (reconcile_external_reversible_compensation world session listing finding node)
reconcile-IsGuarded_example = reconcile-IsGuarded world session listing finding node

abbrev refund : Compensation
refund = record {
  prepare_ref = text "root.v1";
  compensation_effect = returns;
  compensation_idempotency_key = text "k::compensate";
  authority = text "auditor";
  jurisdiction = "session";
  intent_ref = "";
  warrant_id = "";
}

compensate_external_reversible-OffsetsOnce_example :
    ((compensate_external_reversible world session listing refund node).1.acts ≡ node.acts)
    ⊎ OffsetsOnce world session refund node
        (compensate_external_reversible world session listing refund node).1
compensate_external_reversible-OffsetsOnce_example =
    compensate_external_reversible-OffsetsOnce world session listing refund node

abbrev narrow : IntentDeclaration
narrow = record {
  declaration_hash = "narrow";
  declared_ops = "deploy" ∷ [];
  scope_type = "session";
  scope_ref = "";
  authority = "root";
  timestamp = "t";
}

abbrev kept : IntentStore
kept = record { rows = record { declaration = narrow; revoked = false } ∷ []; revocations = [] }

abbrev withdrawal : IntentRevocation
withdrawal = record {
  revocation_hash = "r";
  revoked_declaration_hash = "narrow";
  authority = "root";
  timestamp = "t";
}

named_intent : request.intent_ref ≢ ""
named_intent e = ground (arith, eq_iff "narrow" "")

intent_verdict-revoke_example :
    intent_verdict world
      (record session { will_store = some (revoke (of_write no_fault) kept withdrawal) })
      request
    ≡ intent_verdict world (record session { will_store = some kept }) request
intent_verdict-revoke_example =
    intent_verdict-revoke world session request (of_write no_fault) kept withdrawal named_intent
