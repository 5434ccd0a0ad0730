-- ===== src/Fga/Surface.antt =====
-- Decision surfaces and their closed registry (ugk/fga/trace_vector.py).
use ugk.Base.{String, Bool, true, false, List, [], ◌∷◌, not, ◌&&◌, if◌then◌else◌}
use ugk.Base.Names.{elem}

-- `MODE_REDERIVED`, `MODE_COMMITTED_BODY_BOUND`.
pub data Mode : Type 0 where
  rederived committed_body_bound : Mode

pub record DecisionSurface : Type 0 where
  pub surface_id : String
  pub axis : String
  pub committed_field : String
  pub commitment_id : String
  pub rederivable : Bool
  pub optional : Bool
  pub verification_mode : Mode

abbrev pub committed_receipt_fields : List String
committed_receipt_fields = "h_s" ∷ "h_c" ∷ "h_m" ∷ "h_j" ∷ []

abbrev pub d_s : DecisionSurface
d_s = record {
  surface_id = "D_s";
  axis = "state";
  committed_field = "h_s";
  commitment_id = "c_s.v1";
  rederivable = true;
  optional = false;
  verification_mode = rederived;
}

abbrev pub d_c : DecisionSurface
d_c = record {
  surface_id = "D_c";
  axis = "admissibility";
  committed_field = "h_c";
  commitment_id = "c_c.v1";
  rederivable = false;
  optional = false;
  verification_mode = committed_body_bound;
}

abbrev pub d_m : DecisionSurface
d_m = record {
  surface_id = "D_m";
  axis = "meaning";
  committed_field = "h_m";
  commitment_id = "c_m.v1+sigma_0";
  rederivable = false;
  optional = false;
  verification_mode = committed_body_bound;
}

abbrev pub d_j : DecisionSurface
d_j = record {
  surface_id = "D_j";
  axis = "locality";
  committed_field = "h_j";
  commitment_id = "c_j.v1";
  rederivable = false;
  optional = true;
  verification_mode = committed_body_bound;
}

abbrev pub committed_surfaces : List DecisionSurface
committed_surfaces = d_s ∷ d_c ∷ d_m ∷ d_j ∷ []

-- The `ValueError` that the guard raises, or none.
pub data RegistryCheck : Type 0 where
  valid : RegistryCheck
  uncommitted_surface : String → RegistryCheck
  mode_inconsistent : String → RegistryCheck
  mode_overclaim : String → RegistryCheck
  duplicate_surface : String → RegistryCheck

abbrev pub is_rederived : Mode → Bool
is_rederived rederived = true
is_rederived committed_body_bound = false

unfoldable pub validate_from : List String → List DecisionSurface → RegistryCheck
validate_from seen [] = valid
validate_from seen (s ∷ surfaces) =
    let rest = validate_from (s.surface_id ∷ seen) surfaces in
    if not (elem s.committed_field committed_receipt_fields)
    then uncommitted_surface s.surface_id
    else if s.rederivable && not (is_rederived s.verification_mode)
    then mode_inconsistent s.surface_id
    else if not s.rederivable && is_rederived s.verification_mode
    then mode_overclaim s.surface_id
    else if elem s.surface_id seen
    then duplicate_surface s.surface_id
    else rest

unfoldable pub validate_committed_registry : List DecisionSurface → RegistryCheck
unfolding validate_from
validate_committed_registry surfaces = validate_from [] surfaces
