-- ===== src/Kernel/Passes.antt =====
-- When an operation is admitted (`execute`, ugk/kernel.py).
use ugk.Base.{
  String, false, Option, none, some, ◌≡◌, ◌⊎◌, inl, inr, ◌↔◌, refl, ap, ◌==◌, eq_iff, not,
}
use ugk.Base.Dict
use ugk.Store.World.{World}
use ugk.Cgp.Sufficiency.{PolicyEntry, find_enforced_entry, enforce_decision}
use ugk.Kernel.Node.{Node, Outcome, gave, throw, gate_refusal}
use ugk.Kernel.Request.{Governance, Request, Gate, admits, denies, fails}
use ugk.Kernel.Preflight.{Accepted}
use ugk.Kernel.Horizon.{
  declared_step, model_step, gate_step, capability_step, locality_step, intent_step, IntentVerdict,
  resolved, unresolved, intent_verdict, horizon, model_of,
}
use ugk.Kernel.Screen.{
  refuse_gate-IsRefusal, declared_step-Screens, model_step-Screens, gate_step-Screens,
  gate_fails-IsRefusal, gate_denies-IsRefusal, capability_step-Screens, locality_step-Screens,
  bump-Keeps,
}
use ugk.Kernel.Standing.{
  Gives, refusal-gives, require-Gives, step-then, IsDeclared, not_iff, declared_step-Gives,
  IsModelled, model_step-Gives,
}

-- There is no gate, or it admits.
abbrev pub IsOpen : Option Gate → Type 0
IsOpen gate = (gate ≡ none) ⊎ (gate ≡ some admits)

gate_step-Gives :
    (w : World) (c : Governance) (q : Request) (a : Accepted) (gate : Option Gate) (node : Node)
    → Gives (gate_step w c q a gate) node tt ↔ IsOpen gate
unfolding gate_step
gate_step-Gives w c q a none node = (λ h. inl refl, λ h. refl)
gate_step-Gives w c q a (some admits) node = (λ h. inr refl, λ h. refl)
gate_step-Gives w c q a (some fails) node = (
  λ h. absurd (refusal-gives node _ tt (gate_fails-IsRefusal w c q a node) h),
  λ h. absurd (elim h [ inl e ↦ absurd (cc) | inr e ↦ absurd (cc) ]),
)
gate_step-Gives w c q a (some denies) node = (
  λ h. absurd (refusal-gives node _ tt (gate_denies-IsRefusal w c q a node) h),
  λ h. absurd (elim h [ inl e ↦ absurd (cc) | inr e ↦ absurd (cc) ]),
)

-- The capability that the policy asks for in this scope is there.
abbrev pub IsCapable : Governance → Request → Option PolicyEntry → Type 0
IsCapable c q none = Unit
IsCapable c q (some entry) =
    enforce_decision c.policy q.jurisdiction q.op
      (Dict.get entry.capability_class q.capability_verdicts)
    ≡ false

capability_step-Gives :
    (w : World) (c : Governance) (q : Request) (a : Accepted) (entry : Option PolicyEntry)
    (node : Node)
    → Gives (capability_step w c q a entry) node tt ↔ IsCapable c q entry
unfolding capability_step
capability_step-Gives w c q a none node = (λ h. tt, λ h. refl)
capability_step-Gives w c q a (some entry) node =
    let s =
      require-Gives
        (not (
          enforce_decision c.policy q.jurisdiction q.op
            (Dict.get entry.capability_class q.capability_verdicts)))
        _ node
        (refuse_gate-IsRefusal w c a.authority _ "gate_refuse" "" _ _ node (bump-Keeps q.layer)) in
    (λ h. (not_iff _).0 (s.0 h), λ h. s.1 ((not_iff _).1 h))

-- The jurisdiction is the one required, where one is.
abbrev pub IsLocal : Request → Option String → Type 0
IsLocal q none = Unit
IsLocal q (some locality) = q.jurisdiction ≡ locality

locality_step-Gives :
    (w : World) (c : Governance) (q : Request) (a : Accepted) (locality : Option String)
    (node : Node)
    → Gives (locality_step w c q a locality) node tt ↔ IsLocal q locality
unfolding locality_step
locality_step-Gives w c q a none node = (λ h. tt, λ h. refl)
locality_step-Gives w c q a (some locality) node =
    let s =
      require-Gives (q.jurisdiction == locality) _ node
        (refuse_gate-IsRefusal w c a.authority _ "gate_refuse" "" _ _ node (bump-Keeps q.layer)) in
    let same = eq_iff q.jurisdiction locality in (λ h. same.0 (s.0 h), λ h. s.1 (same.1 h))

intent_step-Gives :
    (w : World) (c : Governance) (q : Request) (v : IntentVerdict) (node : Node) (ref : String)
    → Gives (intent_step w c q v) node ref ↔ (v ≡ resolved ref)
unfolding intent_step
intent_step-Gives w c q (resolved other) node ref = (λ h. cc, λ h. cc)
intent_step-Gives w c q (unresolved reason) node ref =
    let s = step-then _ (throw {A = String} (gate_refusal "intent_required_missing")) node ref (λ n.
      inr (
        refuse_gate-IsRefusal w c c.authority _ "conform" c.legend_hash _ _ n
          (λ m. (refl, refl)))) in
    (
      λ h. let thrown = ap (λ (y : Outcome String × Node). y.0) (s.0 h).1 in absurd (cc),
      λ h. absurd (cc),
    )

-- Nothing stands against the operation.
pub record IsAdmissible (w : World) (c : Governance) (q : Request) (a : Accepted) (ref : String)
    : Type 0 where
  pub declared : IsDeclared c q a
  pub modelled : IsModelled (model_of c q) q
  pub open_gate : IsOpen q.gate
  pub capable : IsCapable c q (find_enforced_entry c.policy q.jurisdiction q.op)
  pub local : IsLocal q q.required_locality
  pub intended : intent_verdict w c q ≡ resolved ref

-- An accepted request gets through the refusals, with nothing changed and this intent, exactly when
-- its operation is declared, founded and signed as the session wants it, the authority model has its
-- gate and its warrant basis, the gate is open, the capability suffices where its scope is enforced,
-- the locality is the one required, and the intent resolves.
pub horizon-IsAdmissible :
    (w : World) (c : Governance) (q : Request) (a : Accepted) (node : Node) (ref : String)
    → (horizon w c q a node ≡ (gave ref, node)) ↔ IsAdmissible w c q a ref
unfolding horizon
horizon-IsAdmissible w c q a node ref =
    let entry = find_enforced_entry c.policy q.jurisdiction q.op in
    let s1 = step-then (declared_step w c q a) _ node ref (declared_step-Screens w c q a) in
    let s2 = step-then (model_step w c q a) _ node ref (model_step-Screens w c q a) in
    let s3 = step-then (gate_step w c q a q.gate) _ node ref (gate_step-Screens w c q a q.gate) in
    let s4 =
      step-then (capability_step w c q a entry) _ node ref
        (capability_step-Screens w c q a entry) in
    let s5 =
      step-then (locality_step w c q a q.required_locality)
        (intent_step w c q (intent_verdict w c q)) node ref
        (locality_step-Screens w c q a q.required_locality) in
    let d = declared_step-Gives w c q a node in
    let m = model_step-Gives w c q a node in
    let g = gate_step-Gives w c q a q.gate node in
    let k = capability_step-Gives w c q a entry node in
    let l = locality_step-Gives w c q a q.required_locality node in
    let i = intent_step-Gives w c q (intent_verdict w c q) node ref in
    (
      λ h.
          let (h1, r1) = s1.0 h in
          let (h2, r2) = s2.0 r1 in
          let (h3, r3) = s3.0 r2 in
          let (h4, r4) = s4.0 r3 in
          let (h5, r5) = s5.0 r4 in
          record {
            declared = d.0 h1;
            modelled = m.0 h2;
            open_gate = g.0 h3;
            capable = k.0 h4;
            local = l.0 h5;
            intended = i.0 r5;
          },
      λ p. s1.1 (
        d.1 p.declared,
        s2.1 (
          m.1 p.modelled,
          s3.1 (g.1 p.open_gate, s4.1 (k.1 p.capable, s5.1 (l.1 p.local, i.1 p.intended))),
        ),
      ),
    )
