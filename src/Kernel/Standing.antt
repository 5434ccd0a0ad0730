-- ===== src/Kernel/Standing.antt =====
-- What the declaration of an operation, the session and the authority model ask for (`execute`,
-- ugk/kernel.py).
use ugk.Base.{
  Bool, true, false, Option, none, some, ◌≡◌, ◌⊎◌, inl, inr, ◌↔◌, refl, ap, sym, ◌∙◌, not, ◌&&◌,
  ◌||◌,
}
use ugk.Base.Names.{elem}
use ugk.Store.World.{World}
use ugk.Kernel.Node.{Node, Outcome, gave, threw, Act, ◌>>◌, proceed}
use ugk.Kernel.Request.{Governance, Request, AuthorityModel}
use ugk.Kernel.Preflight.{Accepted}
use ugk.Kernel.Refuse.{require}
use ugk.Kernel.Horizon.{
  declared_step, model_step, is_universal, signature_required, signature_valid, model_of,
  gate_missing, warrant_missing, no_basis, has_gate,
}
use ugk.Kernel.Screen.{IsRefusal, Screens, refuse_protocol-IsRefusal, proceed-threw}

-- The step gives this value, and nothing has changed.
abbrev pub Gives : {A : Type 0} → Act A → Node → A → Type 0
Gives m node a = m node ≡ (gave a, node)

pub refusal-gives :
    {A : Type 0} (node : Node) (x : Outcome A × Node) (a : A)
    → IsRefusal node x
    → x ≡ (gave a, node)
    → ⊥
refusal-gives {A} node x a r h =
    let (e, t) = r.raises in
    let k : x.0 ≡ gave a = ap (λ (y : Outcome A × Node). y.0) h in
    let bad : ◌≡◌ {A = Outcome A} (threw e) (gave a) = sym t ∙ k in cc

pub require-Gives :
    (test : Bool) (refusal : Act Unit) (node : Node)
    → IsRefusal node (refusal node)
    → Gives (require test refusal) node tt ↔ (test ≡ true)
unfolding require
require-Gives true refusal node r = (λ h. refl, λ h. refl)
require-Gives false refusal node r =
    (λ h. absurd (refusal-gives node (refusal node) tt r h), λ h. absurd (cc))

-- A chain that begins with a test, or with another step.
require-then :
    {B : Type 0} (test : Bool) (refusal : Act Unit) (k : Act B) (node : Node) (b : B)
    → IsRefusal node (refusal node)
    → Gives (require test refusal >> k) node b ↔ ((test ≡ true) × Gives k node b)
unfolding require proceed
require-then true refusal k node b r = (λ h. (refl, h), λ h. h.1)
require-then {B} false refusal k node b r =
    let (e, t) = r.raises in
    let same = proceed-threw (refusal node) (λ u. k) e t in
    (
      λ h.
          let bad : ◌≡◌ {A = Outcome B} (threw e) (gave b) =
            sym (ap (λ (y : Outcome B × Node). y.0) same) ∙ ap (λ (y : Outcome B × Node). y.0) h in
          absurd (cc),
      λ h. absurd (let bad = h.0 in cc),
    )

pub step-then :
    {B : Type 0} (m : Act Unit) (k : Act B) (node : Node) (b : B)
    → Screens m
    → Gives (m >> k) node b ↔ (Gives m node tt × Gives k node b)
unfolding proceed
step-then {B} m k node b s = elim (s node) [
  | inl (a, e) ↦ rw e (λ h. (refl, h), λ h. h.1)
  | inr r ↦
      let (e, t) = r.raises in
      let same = proceed-threw (m node) (λ u. k) e t in
      (
        λ h.
            let bad : ◌≡◌ {A = Outcome B} (threw e) (gave b) =
              sym (ap (λ (y : Outcome B × Node). y.0) same)
              ∙ ap (λ (y : Outcome B × Node). y.0) h in
            absurd (cc),
        λ h. absurd (refusal-gives node (m node) tt r h.0),
      )
]

-- What the declaration of the operation and the session ask for.
pub record IsDeclared (c : Governance) (q : Request) (a : Accepted) : Type 0 where
  pub external : elem q.op c.kernel_ops ≡ false
  pub founded : (elem q.op c.universal_ops ≡ true) ⊎ (c.active ≡ true)
  pub signed :
      c.require_governor_sig ≡ true
      → elem q.op c.universal_ops ≡ false
      → c.active ≡ true
      → signature_valid c q a ≡ true
  pub declared : elem q.op c.governance_ops ≡ true

founded_iff : (x y : Bool) → ((x || y) ≡ true) ↔ ((x ≡ true) ⊎ (y ≡ true))
founded_iff true y = (λ h. inl refl, λ h. refl)
founded_iff false y = (λ h. inr h, λ h. elim h [ inl e ↦ absurd (cc) | inr e ↦ e ])

signed_iff :
    (r u t v : Bool)
    → ((not (r && not u && t) || v) ≡ true) ↔ (r ≡ true → u ≡ false → t ≡ true → v ≡ true)
signed_iff true false true v = (λ h x y z. h, λ h. h refl refl refl)
signed_iff true false false v = (λ h x y z. absurd (cc), λ h. refl)
signed_iff true true t v = (λ h x y z. absurd (cc), λ h. refl)
signed_iff false u t v = (λ h x y z. absurd (cc), λ h. refl)

pub not_iff : (b : Bool) → (not b ≡ true) ↔ (b ≡ false)
not_iff true = (λ h. absurd (cc), λ h. absurd (cc))
not_iff false = (λ h. refl, λ h. refl)

pub declared_step-Gives :
    (w : World) (c : Governance) (q : Request) (a : Accepted) (node : Node)
    → Gives (declared_step w c q a) node tt ↔ IsDeclared c q a
unfolding declared_step is_universal signature_required
declared_step-Gives w c q a node =
    let protocol = refuse_protocol-IsRefusal w c a.authority q.op in
    let s1 =
      require-then (not (elem q.op c.kernel_ops)) _ _ node tt (protocol "kernel_internal" _ node) in
    let s2 =
      require-then (elem q.op c.universal_ops || c.active) _ _ node tt
        (protocol "not_founded" _ node) in
    let s3 =
      require-then
        (not (c.require_governor_sig && not (elem q.op c.universal_ops) && c.active)
          || signature_valid c q a)
        _ _ node tt (protocol "governor_sig" _ node) in
    let s4 = require-Gives (elem q.op c.governance_ops) _ node (protocol "undeclared" _ node) in
    let signs =
      signed_iff c.require_governor_sig (elem q.op c.universal_ops) c.active
        (signature_valid c q a) in
    (
      λ h.
          let (k1, h1) = s1.0 h in
          let (k2, h2) = s2.0 h1 in
          let (k3, h3) = s3.0 h2 in
          record {
            external = (not_iff _).0 k1;
            founded = (founded_iff _ _).0 k2;
            signed = signs.0 k3;
            declared = s4.0 h3;
          },
      λ p. s1.1 (
        (not_iff _).1 p.external,
        s2.1 ((founded_iff _ _).1 p.founded, s3.1 (signs.1 p.signed, s4.1 p.declared)),
      ),
    )

-- What the authority model in force asks for; universal operations stand under none.
abbrev pub IsModelled : Option AuthorityModel → Request → Type 0
IsModelled none q = Unit
IsModelled (some m) q =
    (m.require_gate ≡ true → has_gate q.gate ≡ true)
    × (m.require_warrant ≡ true → no_basis q.warrant_basis ≡ false)

missing_iff : (r b : Bool) → (not (r && not b) ≡ true) ↔ (r ≡ true → b ≡ true)
missing_iff true true = (λ h x. refl, λ h. refl)
missing_iff true false = (λ h x. absurd (cc), λ h. h refl)
missing_iff false b = (λ h x. absurd (cc), λ h. refl)

lacking_iff : (r b : Bool) → (not (r && b) ≡ true) ↔ (r ≡ true → b ≡ false)
lacking_iff true true = (λ h x. absurd (cc), λ h. absurd (let k = h refl in cc))
lacking_iff true false = (λ h x. refl, λ h. refl)
lacking_iff false b = (λ h x. absurd (cc), λ h. refl)

model-IsModelled :
    (o : Option AuthorityModel) (q : Request)
    → ((not (gate_missing o q) ≡ true) × (not (warrant_missing o q) ≡ true)) ↔ IsModelled o q
unfolding gate_missing warrant_missing
model-IsModelled none q = (λ h. tt, λ h. (refl, refl))
model-IsModelled (some m) q =
    let g = missing_iff m.require_gate (has_gate q.gate) in
    let b = lacking_iff m.require_warrant (no_basis q.warrant_basis) in
    (λ h. (g.0 h.0, b.0 h.1), λ h. (g.1 h.0, b.1 h.1))

pub model_step-Gives :
    (w : World) (c : Governance) (q : Request) (a : Accepted) (node : Node)
    → Gives (model_step w c q a) node tt ↔ IsModelled (model_of c q) q
unfolding model_step
model_step-Gives w c q a node =
    let protocol = refuse_protocol-IsRefusal w c a.authority q.op in
    let s1 =
      require-then (not (gate_missing (model_of c q) q)) _ _ node tt
        (protocol "require_gate" _ node) in
    let s2 =
      require-Gives (not (warrant_missing (model_of c q) q)) _ node
        (protocol "require_warrant" _ node) in
    let met = model-IsModelled (model_of c q) q in
    (λ h. let (k, g) = s1.0 h in met.0 (k, s2.0 g), λ p. let (k, g) = met.1 p in s1.1 (k, s2.1 g))
