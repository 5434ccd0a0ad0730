-- ===== src/Kernel/Admit.antt =====
-- The admission of an operation and what its success receipt carries (`execute` from step 5 on,
-- ugk/kernel.py).
use ugk.Base.{ℕ, zero, suc, String, Bool, false, Option, none, some, ◌==◌, if◌then◌else◌}
use ugk.Base.Dict
use ugk.Base.Names.{elem}
use ugk.Json.{Json, int, text, arr, obj, Fields, end, field, cons, set, is_null}
use ugk.Store.Receipt.{Receipt}
use ugk.Store.World.{World}
use ugk.Store.Write.{WriteCall}
use ugk.Governance.Warrant.{
  WarrantStore, DecisionWarrant, create_warrant, write_warrant, get_warrant, result_admit,
}
use ugk.Kernel.Node.{Effect, gave, kernel_internal_op, Act, give, throw, emit, lifted, Trail}
use ugk.Kernel.Request.{
  Governance, Request, EffectAtomicity, pure, store_local, external_reversible,
  external_irreversible, non_atomic, kernel_call,
}
use ugk.Kernel.Preflight.{Accepted}

-- `EffectAtomicity.value`
abbrev pub value_of : EffectAtomicity → String
value_of pure = "pure"
value_of store_local = "store_local"
value_of external_reversible = "external_reversible"
value_of external_irreversible = "external_irreversible"
value_of non_atomic = "non_atomic"

class_column : Option Effect → Option EffectAtomicity → Option Fields
class_column none k = none
class_column (some e) none = none
class_column (some e) (some k) = some (field "effect_atomicity" (text (value_of k)) end)

-- The class of the declared effect, as the column that the receipt carries.
unfoldable pub effect_columns_of : Request → Option Fields
unfolding class_column
effect_columns_of q = class_column q.effect q.effect_atomicity

unfoldable pub admit_call : Governance → Request → Accepted → WriteCall
unfolding effect_columns_of kernel_call
admit_call c q a =
    let margin = if is_null q.gate_margin then end else field "gate_margin" q.gate_margin end in
    record (kernel_call c "gate_admit" a.authority
      (field "op" (text q.op) (field "parameters" (obj a.parameters) margin)) false "gate_admit"
      "kernel" c.legend_hash) { effect_columns = effect_columns_of q }

-- Step 5.
unfoldable pub admit : World → Governance → Request → Accepted → Act Receipt
unfolding admit_call
admit w c q a node = lifted (emit w node (admit_call c q a))

-- Does the authority model in force want a warrant?
unfoldable pub warrant_wanted : Governance → Request → Bool
warrant_wanted c q =
    if elem q.op c.universal_ops
    then false
    else elim c.authority_model [ none ↦ false | some m ↦ m.require_warrant ]

-- A warrant that could not be stored is an error where one is wanted, and no warrant otherwise.
unfoldable pub no_warrant : Governance → Request → Act String
no_warrant c q = if warrant_wanted c q then throw kernel_internal_op else give ""

-- The hash is the receipt's warrant where it was written and can be read.
unfoldable pub settle :
    Governance → Request → String → Option String → Option DecisionWarrant → Act String
unfolding no_warrant
settle c q hash none stored = no_warrant c q
settle c q hash (some written) none = no_warrant c q
settle c q hash (some written) (some stored) = if written == hash then give hash else no_warrant c q

unfoldable pub issue_warrant :
    World → Governance → Request → DecisionWarrant → Option WarrantStore → Act String
unfolding settle
issue_warrant w c q warrant none node = no_warrant c q node
issue_warrant w c q warrant (some store) node =
    let (written, after) = write_warrant w.hash c.sort_items c.warrant_fault store warrant in
    settle c q warrant.warrant_hash written (get_warrant c.sort_items after warrant.warrant_hash)
      (record node { warrants = some after })

unfoldable pub warrant_step : World → Governance → Request → Json → Act String
unfolding issue_warrant
warrant_step w c q (arr basis) node =
    issue_warrant w c q
      (create_warrant w.hash c.sort_items (c.sort_items basis) c.law_hash c.legend_hash result_admit
        c.clock)
      node.warrants node
warrant_step w c q _ node = (gave "", node)

with_authority_set : Json → Fields → Fields
with_authority_set (arr (cons x xs)) p = set "authority_set" (arr (cons x xs)) p
with_authority_set _ p = p

with_op_csil : Option ℕ → Fields → Fields
with_op_csil none p = p
with_op_csil (some zero) p = p
with_op_csil (some (suc n)) p = set "op_csil" (int (suc n)) p

-- The parameters of the success receipt.
unfoldable pub success_parameters : Governance → Request → Accepted → Fields
unfolding with_authority_set with_op_csil
success_parameters c q a =
    with_op_csil (Dict.get q.op c.op_csil_registry)
      (with_authority_set q.authority_set a.parameters)

-- What is known of the operation once it is admitted.
pub record Admission : Type 0 where
  pub intent_ref : String
  pub admit_ref : String
  pub warrant_id : String

unfoldable pub success_call : Governance → Request → Accepted → Admission → WriteCall
unfolding success_parameters effect_columns_of kernel_call
success_call c q a m =
    record (kernel_call c q.op a.authority (success_parameters c q a) false q.op q.jurisdiction
      c.legend_hash) {
        warrant_id = m.warrant_id;
        intent_ref = m.intent_ref;
        effect_columns = effect_columns_of q;
      }

unfoldable pub trail_of : Governance → Request → Accepted → Admission → Trail
unfolding success_parameters
trail_of c q a m = record {
  op = q.op;
  authority = a.authority;
  parameters = success_parameters c q a;
  idempotency_key = q.idempotency_key;
  jurisdiction = q.jurisdiction;
  intent_ref = m.intent_ref;
  warrant_id = m.warrant_id;
  session_dkn = c.session_dkn;
  law_hash = c.law_hash;
  legend_hash = c.legend_hash;
  now = c.now;
}
