-- ===== src/Fga/Trace.antt =====
-- The trace vector of a receipt and its aggregation (ugk/fga/trace_vector.py).
use ugk.Base.{String, Bool, List, [], ◌∷◌, ◌==◌, not, ◌&&◌, map, if◌then◌else◌}
use ugk.Json.{text, bool, arr, obj, Items, nil, cons, end, field}
use ugk.Crypto.{Hash}
use ugk.Binding.Canon.{commit_s}
use ugk.Store.Receipt.{Receipt, no_effect, no_reconciliation, no_continuation, no_bridge}
use ugk.Store.Body.{compute_h_body}
use ugk.Fga.Surface.{DecisionSurface, RegistryCheck, valid, validate_committed_registry}

-- `PASS`, `REFUSE` of one surface.
pub data Result : Type 0 where
  pass refuse : Result

pub data ReasonCode : Type 0 where
  r_ok r_state_mismatch r_commit_absent r_commit_malformed r_body_integrity r_frame_mismatch :
      ReasonCode
  operator_id_mismatch incomplete_or_reordered : ReasonCode

pub record SurfaceResult : Type 0 where
  pub surface_id : String
  pub result : Result
  pub reason_code : ReasonCode

pub record FrameRef : Type 0 where
  pub law_hash : String
  pub schema_hash : String
  pub legend_hash : String
  pub codex_hash : String

pub record TraceVector : Type 0 where
  pub surfaces : List SurfaceResult
  pub frame : FrameRef
  pub surface_registry_version : String
  pub aggregation_operator_id : String
  pub transition_op : String
  pub receipt_h_r : String
  pub receipt_h_body : String
  pub integrity_ok : Bool
  pub frame_consistent : Bool
  pub trace_vector_hash : String

abbrev pub operator_id : String
operator_id = "conjunctive_refusal_monotone_v1"

abbrev pub registry_version : String
registry_version = "fga.committed-surfaces.v1"

-- `getattr(receipt, surface.committed_field, None)`; no other field is committed.
unfoldable pub committed_value : Receipt → String → String
committed_value r name =
    if name == "h_s"
    then r.h_s
    else if name == "h_c"
    then r.h_c
    else if name == "h_m"
    then r.h_m
    else if name == "h_j"
    then r.h_j
    else ""

result_text : Result → String
result_text pass = "PASS"
result_text refuse = "REFUSE"

unfoldable pub reason_text : ReasonCode → String
reason_text r_ok = "ok"
reason_text r_state_mismatch = "state-commitment-mismatch"
reason_text r_commit_absent = "commitment-absent"
reason_text r_commit_malformed = "commitment-malformed"
reason_text r_body_integrity = "whole-body-integrity-fail"
reason_text r_frame_mismatch = "frame-mismatch"
reason_text operator_id_mismatch = "operator-id-mismatch"
reason_text incomplete_or_reordered = "incomplete-or-reordered-surface-vector"

unfoldable pub result_items : List SurfaceResult → Items
unfolding result_text reason_text
result_items [] = nil
result_items (s ∷ ss) =
    cons
      (arr (
        cons (text s.surface_id)
          (cons (text (result_text s.result)) (cons (text (reason_text s.reason_code)) nil))))
      (result_items ss)

-- `is_hexdigest` is the test of 64 characters that `int(v, 16)` reads.
module _ (hash : Hash) (is_hexdigest : String → Bool) where
  unfoldable pub verify_surface : DecisionSurface → Receipt → SurfaceResult
  unfolding committed_value
  verify_surface s r =
      let committed = committed_value r s.committed_field in
      let verdict : Result → ReasonCode → SurfaceResult =
        λ v c. record { surface_id = s.surface_id; result = v; reason_code = c } in
      if s.optional && committed == ""
      then verdict pass r_ok
      else if committed == ""
      then verdict refuse r_commit_absent
      else if not (is_hexdigest committed)
      then verdict refuse r_commit_malformed
      else if s.rederivable && not (commit_s hash r.op r.parameters == committed)
      then verdict refuse r_state_mismatch
      else verdict pass r_ok

module _ (hash : Hash) where
  -- `_rederive_h_body` hands the terminal and the capability columns over and leaves the effect,
  -- reconciliation, continuation and bridge columns at their default, `None`.
  unfoldable pub rederive_h_body : Receipt → String
  rederive_h_body r = compute_h_body hash (record r.body {
    effect = no_effect;
    reconciliation = no_reconciliation;
    continuation = no_continuation;
    bridge = no_bridge;
  })

  trace_vector_digest : List SurfaceResult → FrameRef → Receipt → Bool → Bool → String
  unfolding result_items
  trace_vector_digest surfaces frame r integrity_ok frame_consistent = hash.sha256 (
      "FGA-TRACE-v1"
      ∷ hash.storage_json (
          obj (
            field "surface_registry_version" (text registry_version) (
              field "aggregation_operator_id" (text operator_id) (
                field "frame"
                  (obj (
                    field "law_hash" (text frame.law_hash) (
                      field "schema_hash" (text frame.schema_hash) (
                        field "legend_hash" (text frame.legend_hash)
                          (field "codex_hash" (text frame.codex_hash) end)))))
                  (field "transition_op" (text r.op) (
                    field "receipt_h_r" (text r.h_r) (
                      field "receipt_h_body" (text r.h_body) (
                        field "integrity_ok" (bool integrity_ok) (
                          field "frame_consistent" (bool frame_consistent)
                            (field "surfaces" (arr (result_items surfaces)) end))))))))))
      ∷ [])

pub data Built : Type 0 where
  built : TraceVector → Built
  rejected : RegistryCheck → Built

after_check : RegistryCheck → TraceVector → Built
after_check valid tv = built tv
after_check bad tv = rejected bad

module _ (hash : Hash) (is_hexdigest : String → Bool) where
  unfoldable pub vector_of : List DecisionSurface → Receipt → FrameRef → TraceVector
  unfolding verify_surface rederive_h_body trace_vector_digest
  vector_of surfaces r frame =
      let results = map (λ s. verify_surface hash is_hexdigest s r) surfaces in
      let integrity_ok = rederive_h_body hash r == r.h_body && not (r.h_body == "") in
      let frame_consistent = r.law_hash == frame.law_hash && r.legend_hash == frame.legend_hash in
      record {
        surfaces = results;
        frame = frame;
        surface_registry_version = registry_version;
        aggregation_operator_id = operator_id;
        transition_op = r.op;
        receipt_h_r = r.h_r;
        receipt_h_body = r.h_body;
        integrity_ok = integrity_ok;
        frame_consistent = frame_consistent;
        trace_vector_hash = trace_vector_digest hash results frame r integrity_ok frame_consistent;
      }

  unfoldable pub build_trace_vector : Receipt → FrameRef → List DecisionSurface → Built
  unfolding vector_of after_check
  build_trace_vector r frame surfaces =
      after_check (validate_committed_registry surfaces) (vector_of surfaces r frame)
