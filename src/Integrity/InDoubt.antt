-- ===== src/Integrity/InDoubt.antt =====
-- What the orphan detectors take to be in doubt (ugk/integrity/external_irreversible.py,
-- ugk/integrity/external_reversible.py).
use ugk.Base.{
  String, Bool, true, false, List, [], ◌∷◌, ◌≡◌, ◌↔◌, ◌⊎◌, ◌&&◌, ◌==◌, not, inl, inr, refl, keep,
  any, arith, Bool-cases, Among, Among-keep, Among-any, ==_refl,
}
use ugk.Json.{Json, text, get, json_eq, json_eq_refl, json_eq-text}
use ugk.Store.Receipt.{Receipt}
use ugk.Integrity.Trail.{view, is_phase, is_phase_in, clears, clears_compensate}
use ugk.Integrity.Irreversible.{in_doubt, is_prepare, is_terminal, prepares, terminals}
use ugk.Integrity.Reversible.{
  forward_in_doubt, compensation_in_doubt, is_forward_prepare, is_forward_terminal, is_compensate,
  is_compensation_terminal,
}

-- An effect field of a receipt, from its column or its marker.
abbrev pub effect_field : String → Receipt → Json
effect_field key r = get key (view r)

-- A receipt of this class of effects and of this phase.
pub record IsPhase (atomicity phase : String) (r : Receipt) : Type 0 where
  pub of_class : effect_field "effect_atomicity" r ≡ text atomicity
  pub in_phase : effect_field "phase" r ≡ text phase

IsPhase-is_phase :
    (atomicity phase : String) (r : Receipt)
    → (is_phase atomicity phase r ≡ true) ↔ IsPhase atomicity phase r
unfolding is_phase
IsPhase-is_phase a p r = (
  λ h. record {
    of_class = json_eq-text (effect_field "effect_atomicity" r) a (ground (arith, h));
    in_phase = json_eq-text (effect_field "phase" r) p (ground (arith, h));
  },
  λ h. rw (h.of_class, h.in_phase, json_eq_refl (text a), json_eq_refl (text p)) refl,
)

abbrev opening_test : String → String → Receipt → Bool
opening_test a opening r = is_phase a opening r

abbrev closing_test : String → String → String → String → Receipt → Bool
closing_test a opening good bad r = not (is_phase a opening r) && is_phase_in a (good ∷ bad ∷ []) r

-- Both readers, the irreversible and the reversible one, look for openings that nothing closes.
abbrev unclosed :
    String → String → String → String → (Receipt → Receipt → Bool) → List Receipt → List Receipt
unclosed a opening good bad matches rs =
    keep (λ r. not (any (λ t. matches r t) (keep (λ t. closing_test a opening good bad t) rs)))
      (keep (λ r. opening_test a opening r) rs)

closing_test-IsPhase :
    (a opening good bad : String) (t : Receipt)
    → (good == opening) ≡ false
    → (bad == opening) ≡ false
    → (closing_test a opening good bad t ≡ true) ↔ (IsPhase a good t ⊎ IsPhase a bad t)
unfolding is_phase_in is_phase json_eq
closing_test-IsPhase a opening good bad t g b = (
  λ h.
      let of_class = json_eq-text (effect_field "effect_atomicity" t) a (ground (arith, h)) in
      elim (Bool-cases (json_eq (effect_field "phase" t) (text good))) [
        | inl e ↦ inl (record {
          of_class = of_class;
          in_phase = json_eq-text (effect_field "phase" t) good e;
        })
        | inr e ↦ inr (record {
          of_class = of_class;
          in_phase = json_eq-text (effect_field "phase" t) bad (ground (arith, h, e));
        })
      ],
  λ h. elim h [
    | inl p ↦ rw (p.of_class, p.in_phase, ==_refl a, ==_refl good, g) refl
    | inr p ↦ rw (p.of_class, p.in_phase, ==_refl a, ==_refl bad, b) (ground arith)
  ],
)

-- A closing that matches this receipt.
abbrev Closed :
    String → String → String → (Receipt → Receipt → Bool) → List Receipt → Receipt → Type 0
Closed a good bad matches rs r =
    (t : Receipt) × Among t rs × (IsPhase a good t ⊎ IsPhase a bad t) × (matches r t ≡ true)

any-Closed :
    (a opening good bad : String) (matches : Receipt → Receipt → Bool) (rs : List Receipt)
    (r : Receipt)
    → (good == opening) ≡ false
    → (bad == opening) ≡ false
    → (any (λ t. matches r t) (keep (λ t. closing_test a opening good bad t) rs) ≡ true)
      ↔ Closed a good bad matches rs r
any-Closed a opening good bad matches rs r g b =
    let closings = keep (λ t. closing_test a opening good bad t) rs in
    (
      λ h.
          let (t, m, e) = (Among-any (λ t. matches r t) closings).0 h in
          let (stands, c) = (Among-keep (λ t. closing_test a opening good bad t) rs t).0 m in
          (t, stands, (closing_test-IsPhase a opening good bad t g b).0 c, e),
      λ (t, stands, c, e). (Among-any (λ t. matches r t) closings).1 (
        t,
        (Among-keep (λ t. closing_test a opening good bad t) rs t).1
            (stands, (closing_test-IsPhase a opening good bad t g b).1 c),
        e,
      ),
    )

unclosed_iff :
    (a opening good bad : String) (matches : Receipt → Receipt → Bool) (rs : List Receipt)
    (r : Receipt)
    → (good == opening) ≡ false
    → (bad == opening) ≡ false
    → Among r (unclosed a opening good bad matches rs)
      ↔ (Among r rs × IsPhase a opening r × (Closed a good bad matches rs r → ⊥))
unclosed_iff a opening good bad matches rs r g b =
    let openings = keep (λ r. opening_test a opening r) rs in
    let open_test : Receipt → Bool =
      λ r. not (any (λ t. matches r t) (keep (λ t. closing_test a opening good bad t) rs)) in
    let (to, from) = any-Closed a opening good bad matches rs r g b in
    (
      λ h.
          let (m, e) = (Among-keep open_test openings r).0 h in
          let (stands, o) = (Among-keep (λ r. opening_test a opening r) rs r).0 m in
          (stands, (IsPhase-is_phase a opening r).0 o, λ c. let t = from c in ground (arith, e, t)),
      λ (stands, o, n). (Among-keep open_test openings r).1 (
        (Among-keep (λ r. opening_test a opening r) rs r).1
            (stands, (IsPhase-is_phase a opening r).1 o),
        elim (Bool-cases
            (any (λ t. matches r t) (keep (λ t. closing_test a opening good bad t) rs))) [
              | inl e ↦ absurd (n (to e))
              | inr e ↦ rw e refl
            ],
      ),
    )

-- A commit or an abort in the trail that has the key of the prepare and names this very prepare.
pub record IsCleared (atomicity : String) (rs : List Receipt) (prepare : Receipt) : Type 0 where
  pub terminal : Receipt
  pub stands : Among terminal rs
  pub phase : IsPhase atomicity "commit" terminal ⊎ IsPhase atomicity "abort" terminal
  pub same_key :
      json_eq (effect_field "idempotency_key" terminal) (effect_field "idempotency_key" prepare)
      ≡ true
  pub refers : effect_field "prepare_ref" terminal ≡ text prepare.h_r

-- A prepare of the trail that is not cleared.
abbrev pub IsInDoubt : String → List Receipt → Receipt → Type 0
IsInDoubt atomicity rs r =
    Among r rs × IsPhase atomicity "prepare" r × (IsCleared atomicity rs r → ⊥)

Closed-IsCleared :
    (a : String) (rs : List Receipt) (r : Receipt)
    → Closed a "commit" "abort" (λ p t. clears p t) rs r ↔ IsCleared a rs r
unfolding clears
Closed-IsCleared a rs r = (
  λ (t, stands, phase, e). record {
    terminal = t;
    stands = stands;
    phase = phase;
    same_key = ground (arith, e);
    refers = json_eq-text (effect_field "prepare_ref" t) r.h_r (ground (arith, e));
  },
  λ c. (c.terminal, c.stands, c.phase, rw (c.same_key, c.refers, json_eq_refl (text r.h_r)) refl),
)

unclosed-IsInDoubt :
    (a : String) (rs : List Receipt) (r : Receipt)
    → Among r (unclosed a "prepare" "commit" "abort" (λ p t. clears p t) rs) ↔ IsInDoubt a rs r
unclosed-IsInDoubt a rs r =
    let (to, from) = unclosed_iff a "prepare" "commit" "abort" (λ p t. clears p t) rs r refl refl in
    let (clear, close) = Closed-IsCleared a rs r in
    (
      λ h. let (s, p, n) = to h in (s, p, λ c. n (close c)),
      λ (s, p, n). from (s, p, λ c. n (clear c)),
    )

-- An attempt is in doubt, for an irreversible effect as for a reversible one, exactly when it is a
-- prepare of the trail and no commit or abort of the trail has its key and names this very prepare: a
-- terminal of the same key that names another prepare does not clear it.
pub in_doubt-IsInDoubt :
    (rs : List Receipt) (r : Receipt)
    → (Among r (in_doubt rs) ↔ IsInDoubt "external_irreversible" rs r)
      × (Among r (forward_in_doubt rs) ↔ IsInDoubt "external_reversible" rs r)
unfolding in_doubt prepares terminals is_prepare is_terminal forward_in_doubt is_forward_prepare
    is_forward_terminal
in_doubt-IsInDoubt rs r =
    (unclosed-IsInDoubt "external_irreversible" rs r, unclosed-IsInDoubt "external_reversible" rs r)

-- A terminal of the compensation arc in the trail, of success or of failure, with the reference and
-- the key of the compensate.
pub record IsOffset (rs : List Receipt) (compensate : Receipt) : Type 0 where
  pub terminal : Receipt
  pub stands : Among terminal rs
  pub phase :
      IsPhase "external_reversible" "compensated" terminal
      ⊎ IsPhase "external_reversible" "compensation_failed" terminal
  pub same_ref :
      json_eq (effect_field "compensate_ref" terminal) (effect_field "compensate_ref" compensate)
      ≡ true
  pub same_key :
      json_eq
        (effect_field "compensation_idempotency_key" terminal)
        (effect_field "compensation_idempotency_key" compensate)
      ≡ true

Closed-IsOffset :
    (rs : List Receipt) (r : Receipt)
    → Closed "external_reversible" "compensated" "compensation_failed"
        (λ c t. clears_compensate c t)
        rs
        r
      ↔ IsOffset rs r
unfolding clears_compensate
Closed-IsOffset rs r = (
  λ (t, stands, phase, e). record {
    terminal = t;
    stands = stands;
    phase = phase;
    same_ref = ground (arith, e);
    same_key = ground (arith, e);
  },
  λ c. (c.terminal, c.stands, c.phase, rw (c.same_ref, c.same_key) refl),
)

-- A compensation is in doubt exactly when it is a compensate of the trail and no terminal of the
-- trail, compensated or compensation_failed, has both its reference and its key.
pub compensation_in_doubt-IsOffset :
    (rs : List Receipt) (r : Receipt)
    → Among r (compensation_in_doubt rs)
      ↔ (Among r rs × IsPhase "external_reversible" "compensate" r × (IsOffset rs r → ⊥))
unfolding compensation_in_doubt is_compensate is_compensation_terminal
compensation_in_doubt-IsOffset rs r =
    let (to, from) =
      unclosed_iff "external_reversible" "compensate" "compensated" "compensation_failed"
        (λ c t. clears_compensate c t) rs r refl refl in
    let (ended, close) = Closed-IsOffset rs r in
    (
      λ h. let (s, p, n) = to h in (s, p, λ c. n (close c)),
      λ (s, p, n). from (s, p, λ c. n (ended c)),
    )
