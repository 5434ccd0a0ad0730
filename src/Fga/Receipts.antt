-- ===== src/Fga/Receipts.antt =====
-- Which stored receipts the built trace vector admits (`build_trace_vector`, `_verify_surface`,
-- `_rederive_h_body`, ugk/fga/trace_vector.py).
use ugk.Base.{String, Bool, true, ◌==◌, ◌&&◌, not, ◌≡◌, ◌≢◌, ◌↔◌, ◌⊎◌, refl, arith, eq_iff}
use ugk.Crypto.{Hash}
use ugk.Binding.Canon.{commit_s}
use ugk.Store.Receipt.{Receipt}
use ugk.Fga.Surface.{DecisionSurface, committed_surfaces, d_s, d_c, d_m, d_j}
use ugk.Fga.Trace.{FrameRef, pass, verify_surface, committed_value, rederive_h_body, vector_of}
use ugk.Fga.Aggregate.{admit, aggregate, IsAdmissible, aggregate-IsAdmissible}

module _ (hash : Hash) (is_hexdigest : String → Bool) where
  -- A commitment that is there and well formed.
  abbrev pub IsCommitment : String → Type 0
  IsCommitment h = (h ≢ "") × (is_hexdigest h ≡ true)

  -- What an admitted receipt carries.
  pub record IsSound (r : Receipt) (frame : FrameRef) : Type 0 where
    pub state : IsCommitment r.h_s
    pub state_rederives : commit_s hash r.op r.parameters ≡ r.h_s
    pub admissibility : IsCommitment r.h_c
    pub meaning : IsCommitment r.h_m
    pub locality : (r.h_j ≡ "") ⊎ IsCommitment r.h_j
    pub body_rederives : rederive_h_body hash r ≡ r.h_body
    pub body_present : r.h_body ≢ ""
    pub law : r.law_hash ≡ frame.law_hash
    pub legend : r.legend_hash ≡ frame.legend_hash

  passes_state :
      (r : Receipt)
      → (verify_surface hash is_hexdigest d_s r).result ≡ pass
        ↔ (IsCommitment r.h_s × (commit_s hash r.op r.parameters ≡ r.h_s))
  unfolding verify_surface committed_value
  passes_state r =
      let e = eq_iff r.h_s "" in
      let f = eq_iff (commit_s hash r.op r.parameters) r.h_s in
      (λ h. ground (arith, e, f), λ (c, k). ground (arith, e, f))

  passes_admissibility :
      (r : Receipt) → (verify_surface hash is_hexdigest d_c r).result ≡ pass ↔ IsCommitment r.h_c
  unfolding verify_surface committed_value
  passes_admissibility r =
      let e = eq_iff r.h_c "" in (λ h. ground (arith, e), λ c. ground (arith, e))

  passes_meaning :
      (r : Receipt) → (verify_surface hash is_hexdigest d_m r).result ≡ pass ↔ IsCommitment r.h_m
  unfolding verify_surface committed_value
  passes_meaning r = let e = eq_iff r.h_m "" in (λ h. ground (arith, e), λ c. ground (arith, e))

  passes_locality :
      (r : Receipt)
      → (verify_surface hash is_hexdigest d_j r).result ≡ pass ↔ ((r.h_j ≡ "") ⊎ IsCommitment r.h_j)
  unfolding verify_surface committed_value
  passes_locality r = let e = eq_iff r.h_j "" in (λ h. ground (arith, e), λ c. ground (arith, e))

  frame_tests :
      (r : Receipt) (frame : FrameRef)
      → ((r.law_hash == frame.law_hash) && (r.legend_hash == frame.legend_hash)) ≡ true
        ↔ ((r.law_hash ≡ frame.law_hash) × (r.legend_hash ≡ frame.legend_hash))
  frame_tests r frame =
      let e = eq_iff r.law_hash frame.law_hash in
      let f = eq_iff r.legend_hash frame.legend_hash in
      (λ h. ground (arith, e, f), λ (a, b). ground (arith, e, f))

  body_tests :
      (r : Receipt)
      → ((rederive_h_body hash r == r.h_body) && not (r.h_body == "")) ≡ true
        ↔ ((rederive_h_body hash r ≡ r.h_body) × (r.h_body ≢ ""))
  body_tests r =
      let e = eq_iff (rederive_h_body hash r) r.h_body in
      let f = eq_iff r.h_body "" in (λ h. ground (arith, e, f), λ (a, b). ground (arith, e, f))

  named :
      (s : DecisionSurface) (r : Receipt)
      → (verify_surface hash is_hexdigest s r).surface_id ≡ s.surface_id
  unfolding verify_surface
  named s r = ground arith

  IsSound-vector :
      (r : Receipt) (frame : FrameRef)
      → IsAdmissible (vector_of hash is_hexdigest committed_surfaces r frame) ↔ IsSound r frame
  unfolding vector_of
  IsSound-vector r frame = (
    λ h.
        let (ps, (pc, (pm, (pj, _)))) = h.passing in
        let s = (passes_state r).0 ps in
        let f = (frame_tests r frame).0 h.in_frame in
        let b = (body_tests r).0 h.intact in
        record {
          state = s.0;
          state_rederives = s.1;
          admissibility = (passes_admissibility r).0 pc;
          meaning = (passes_meaning r).0 pm;
          locality = (passes_locality r).0 pj;
          body_rederives = b.0;
          body_present = b.1;
          law = f.0;
          legend = f.1;
        },
    λ h. record {
      operator = refl;
      complete = rw (named d_s r, named d_c r, named d_m r, named d_j r) refl;
      passing = (
        (passes_state r).1 (h.state, h.state_rederives),
        (
          (passes_admissibility r).1 h.admissibility,
          ((passes_meaning r).1 h.meaning, ((passes_locality r).1 h.locality, tt)),
        ),
      );
      intact = (body_tests r).1 (h.body_rederives, h.body_present);
      in_frame = (frame_tests r frame).1 (h.law, h.legend);
    },
  )

  -- A receipt's trace vector is admitted exactly when its state commitment is present, well formed
  -- and re-derived from its operation and parameters, its admissibility and meaning commitments
  -- are present and well formed, its locality commitment is absent or well formed, its body
  -- commitment is the one re-derived, and it stands under the frame's law and legend.
  pub aggregate-vector_of :
      (r : Receipt) (frame : FrameRef)
      → aggregate (vector_of hash is_hexdigest committed_surfaces r frame) ≡ admit ↔ IsSound r frame
  aggregate-vector_of r frame =
      let tv = vector_of hash is_hexdigest committed_surfaces r frame in
      (
        λ h. (IsSound-vector r frame).0 ((aggregate-IsAdmissible tv).0 h),
        λ h. (aggregate-IsAdmissible tv).1 ((IsSound-vector r frame).1 h),
      )
