-- ===== src/Authority/Attenuation.antt =====
-- Along a path capabilities only shrink.
use ugk.Base.{String, ◌≡◌, refl, ◌↔◌, true, List, [], ◌∷◌, ◌++◌, arith, ap, sym, ◌∙◌}
use ugk.Base.Names.{subset, subset_trans, subset_refl}
use ugk.Authority.Edge.{AuthorityEdge}
use ugk.Authority.Capabilities.{effective, effective_from, compute_effective_capabilities}

-- What an authority holds at the end of a path: the last grant, or what the root holds.
abbrev pub held_at_end : List String → List AuthorityEdge → List String
held_at_end held [] = held
held_at_end held (e ∷ es) = held_at_end e.capability_set es

-- Every grant is a subset of what its issuer holds.
abbrev pub Attenuated : List String → List AuthorityEdge → Type 0
Attenuated held [] = Unit
Attenuated held (e ∷ es) = (subset e.capability_set held ≡ true) × Attenuated e.capability_set es

effective_from-Attenuated :
    (held : List String) (path : List AuthorityEdge) (caps : List String)
    → effective_from held path ≡ effective caps
    → Attenuated held path × (caps ≡ held_at_end held path)
unfolding effective_from
effective_from-Attenuated held [] caps h = (tt, cc)
effective_from-Attenuated held (e ∷ es) caps h =
    ground (arith, effective_from-Attenuated e.capability_set es caps)

Attenuated-effective :
    (held : List String) (path : List AuthorityEdge)
    → Attenuated held path
    → effective_from held path ≡ effective (held_at_end held path)
unfolding effective_from
Attenuated-effective held [] h = refl
Attenuated-effective held (e ∷ es) h = ground (arith, Attenuated-effective e.capability_set es)

-- The result is a set of capabilities exactly when every grant on the path is a subset of what
-- its issuer holds, and then it is the last grant (the vocabulary for an empty path).
pub compute_effective_capabilities-effective :
    (vocabulary : List String) (path : List AuthorityEdge) (caps : List String)
    → (compute_effective_capabilities vocabulary path ≡ effective caps)
      ↔ (Attenuated vocabulary path × (caps ≡ held_at_end vocabulary path))
unfolding compute_effective_capabilities
compute_effective_capabilities-effective vocabulary path caps = (
  effective_from-Attenuated vocabulary path caps,
  (λ h. Attenuated-effective vocabulary path h.0 ∙ ap effective (sym h.1)),
)

-- What is held at the end of an attenuated path is a subset of what the root holds.
held_at_end-subset :
    (held : List String) (path : List AuthorityEdge)
    → Attenuated held path
    → subset (held_at_end held path) held ≡ true
held_at_end-subset held [] h = subset_refl held
held_at_end-subset held (e ∷ es) h =
    subset_trans (held_at_end e.capability_set es) e.capability_set held
      (held_at_end-subset e.capability_set es h.1) h.0

effective_within :
    (held : List String) (above below : List AuthorityEdge)
    → Attenuated held (above ++ below)
    → subset (held_at_end held (above ++ below)) (held_at_end held above) ≡ true
effective_within held [] below h = held_at_end-subset held below h
effective_within held (e ∷ above) below h = effective_within e.capability_set above below h.1

-- No laundering of authority by delegation: the capabilities at the end of a path that is
-- accepted are capabilities of every authority further up on it.
pub compute_effective_capabilities-subset :
    (vocabulary : List String) (above below : List AuthorityEdge) (caps : List String)
    → compute_effective_capabilities vocabulary (above ++ below) ≡ effective caps
    → subset caps (held_at_end vocabulary above) ≡ true
compute_effective_capabilities-subset vocabulary above below caps h =
    let (att, e) =
      (compute_effective_capabilities-effective vocabulary (above ++ below) caps).0 h in
    rw e (effective_within vocabulary above below att)
