-- ===== src/Store/Append.antt =====
-- The body of the new receipt, its insertion and the move of the tip (`UGKReceiptStore.write`,
-- ugk/storage/store.py, from the body commitment on).
use ugk.Base.{ℕ, ◌+◌, String, Bool, some, [], ◌∷◌, ◌++◌, ◌||◌, nat_eq, if◌then◌else◌}
use ugk.Json.{Json, null, text, is_null, json_eq}
use ugk.Fga.Surface.{committed_surfaces}
use ugk.Fga.Trace.{vector_of}
use ugk.Store.Receipt.{
  Receipt, Body, TerminalColumns, CapabilityColumns, ContinuationColumns, BridgeColumns, no_effect,
  no_continuation, no_bridge, no_reconciliation,
}
use ugk.Store.Body.{compute_h_body}
use ugk.Store.Attempt.{Attempt, raised, returned, read_only_violation, database_error, ◌>>=◌}
use ugk.Store.World.{World}
use ugk.Store.Write.{
  WriteCall, Store, Fault, no_fault, at_insert, at_commit, Resolved, Commitments, resolve, commit,
  intent_of, terminal_of, capability_of, continuation_of, bridge_of,
}

-- Version 7, and 8 with a bridge surface.
unfoldable pub body_of :
    World
    → Store
    → WriteCall
    → Resolved
    → Commitments
    → TerminalColumns
    → CapabilityColumns
    → ContinuationColumns
    → BridgeColumns
    → Body
body_of w store call resolved c terminal capability continuation bridge = record {
  op = call.op;
  authority = call.authority;
  parameters = resolved.parameters;
  intent = intent_of call;
  jurisdiction = call.jurisdiction;
  confidence = call.confidence;
  timestamp = call.now;
  failed = call.failed;
  session_dkn = call.session_dkn;
  law_hash = call.law_hash;
  legend_hash = call.legend_hash;
  warrant_id = call.warrant_id;
  intent_ref = call.intent_ref;
  h_s = c.h_s;
  h_c = c.h_c;
  h_m = c.h_m;
  h_j = c.h_j;
  h_r = c.h_r;
  parent_h_r = store.prior_h_r;
  mode = "strict";
  version = if is_null call.bridge then 7 else 8;
  id_c_s = w.id_c_s;
  id_c_c = w.id_c_c;
  id_c_m = w.id_c_m;
  id_c_j = w.id_c_j;
  terminal = terminal;
  capability = capability;
  effect = resolved.effect;
  reconciliation = resolved.reconciliation;
  continuation = continuation;
  bridge = bridge;
}

-- `committed_trace_vector_hash` of the receipt without its effect, reconciliation, continuation
-- and bridge columns.
trace_hash : World → Body → String → ℕ → Json
trace_hash w b h_body id =
    let bare = record b {
      effect = no_effect;
      reconciliation = no_reconciliation;
      continuation = no_continuation;
      bridge = no_bridge;
    } in
    let r : Receipt = record {
      body = bare;
      receipt_id = id;
      h_body = h_body;
      trace_vector_hash = null;
    } in
    let tv = vector_of w.hash w.hexdigest committed_surfaces r (record {
      law_hash = b.law_hash;
      schema_hash = w.schema_hash;
      legend_hash = b.legend_hash;
      codex_hash = w.codex_hash;
    }) in
    text tv.trace_vector_hash

is_evaluated : Body → Bool
is_evaluated b =
    json_eq b.terminal.terminal_outcome (text "ADMIT")
    || json_eq b.terminal.terminal_outcome (text "REFUSE")

unfoldable pub receipt_of : World → ℕ → Body → Receipt
unfolding trace_hash is_evaluated
receipt_of w id b =
    let h_body = compute_h_body w.hash b in
    record {
      body = b;
      receipt_id = id;
      h_body = h_body;
      trace_vector_hash = if is_evaluated b then trace_hash w b h_body id else null;
    }

-- Everything between the guard of a read-only store and the insertion.
unfoldable pub build : World → Store → WriteCall → Attempt Receipt
unfolding body_of receipt_of terminal_of capability_of continuation_of bridge_of
build w store call = resolve call >>= λ resolved. commit w store call resolved.parameters >>= λ c.
    terminal_of w call >>= λ terminal. capability_of call >>= λ capability.
    continuation_of w call >>= λ continuation. bridge_of call >>= λ bridge. returned (
      receipt_of w store.next_id
        (body_of w store call resolved c terminal capability continuation bridge))

unfoldable pub prepare : World → Store → WriteCall → Attempt Receipt
unfolding build
prepare w store call = if store.read_only then raised read_only_violation else build w store call

-- The inserted row; the tip has not moved.
unfoldable pub insert : Store → Receipt → Store
insert store r = record store { rows = store.rows ++ r ∷ []; next_id = store.next_id + 1 }

-- The tip moves behind the commit.
unfoldable pub advance : Store → Receipt → Store
advance store r = record store {
  prior_h_r = r.h_r;
  prior_h_m = some r.h_m;
  prior_intent_ref = some r.intent_ref;
}

-- A commit that fails leaves the row in the open transaction of the connection.
unfoldable pub append : Fault → Store → Receipt → Attempt Receipt × Store
unfolding insert advance
append no_fault store r = (returned r, advance (insert store r) r)
append at_insert store r = (raised database_error, store)
append at_commit store r =
    if nat_eq store.txn_depth 0
    then (raised database_error, insert store r)
    else (returned r, advance (insert store r) r)

unfoldable pub finish : Fault → Store → Attempt Receipt → Attempt Receipt × Store
unfolding append
finish fault store (raised e) = (raised e, store)
finish fault store (returned r) = append fault store r

unfoldable pub write : World → Fault → Store → WriteCall → Attempt Receipt × Store
unfolding finish prepare
write w fault store call = finish fault store (prepare w store call)
