-- ===== src/Will/Tests.antt =====
-- Declarations, edges and a revocation (ugk/will.py, ugk/intent.py).
use ugk.Base.{String, true, false, none, List, [], ◌∷◌, ◌≡◌, ◌↔◌, refl, inl, inr, any, ◌==◌}
use ugk.Base.Names.{elem}
use ugk.Base.Dict.{Dict}
use ugk.Store.Write.{no_fault}
use ugk.Will.Intent.{
  IntentDeclaration, IntentRevocation, IntentStore, of_write, active_declarations, revoke, declare,
}
use ugk.Will.Checker.{closure, covers, covering, outside}
use ugk.Will.Reach.{Reach, elem-closure}
use ugk.Will.Cover.{IsCover, covers-IsCover}
use ugk.Will.Declared.{declared, run, revoke-IsPermanent}

abbrev wide : IntentDeclaration
wide = record {
  declaration_hash = "wide";
  declared_ops = "build" ∷ "deploy" ∷ [];
  scope_type = "session";
  scope_ref = "";
  authority = "root";
  timestamp = "t";
}

abbrev narrow : IntentDeclaration
narrow = record wide { declaration_hash = "narrow"; declared_ops = "deploy" ∷ [] }

abbrev edges : Dict (List String)
edges = ("deploy", "publish" ∷ "notify" ∷ []) ∷ ("publish", "index" ∷ []) ∷ []

-- The closure goes through two edges.
reached : elem "index" (closure ("deploy" ∷ []) edges none) ≡ true
unfolding closure elem ugk.Will.Checker.closure_loop ugk.Will.Checker.within ugk.Will.Checker.fresh
    ugk.Will.Checker.produced ugk.Will.Checker.all_targets
reached = refl

elem-closure_example :
    (elem "index" (closure ("deploy" ∷ []) edges none) ≡ true) ↔ Reach ("deploy" ∷ []) edges "index"
elem-closure_example = elem-closure ("deploy" ∷ []) edges "index"

-- The smaller of the two declarations is named.
smallest_named : covers "deploy" (wide ∷ narrow ∷ []) [] none ≡ covering "narrow"
unfolding covers elem closure ugk.Will.Checker.closure_loop ugk.Will.Checker.within
    ugk.Will.Checker.fresh ugk.Will.Checker.produced ugk.Will.Checker.all_targets
    ugk.Will.Checker.seed_of ugk.Will.Checker.find_cover ugk.Will.Checker.first_hash
    ugk.Will.Checker.by_size ugk.Will.Checker.insert_by_size
smallest_named = refl

declares_deploy : elem "deploy" (narrow.declared_ops) ≡ true
unfolding elem
declares_deploy = refl

covers-IsCover_example : IsCover "deploy" (wide ∷ narrow ∷ []) "narrow"
covers-IsCover_example =
    covers-IsCover "deploy" (wide ∷ narrow ∷ []) [] none "narrow" narrow smallest_named
      (inr (inl refl)) declares_deploy

abbrev sorted : List String → List String
sorted names = names

abbrev kept : IntentStore
kept = record { rows = record { declaration = narrow; revoked = false } ∷ []; revocations = [] }

abbrev withdrawal : IntentRevocation
withdrawal = record {
  revocation_hash = "r";
  revoked_declaration_hash = "narrow";
  authority = "root";
  timestamp = "t";
}

is_there :
    any (λ r. ugk.Will.Intent.has_hash withdrawal.revoked_declaration_hash r) kept.rows ≡ true
unfolding ugk.Will.Intent.has_hash
is_there = refl

revoke-IsPermanent_example :
    any
      (λ d. d.declaration_hash == withdrawal.revoked_declaration_hash)
      (active_declarations sorted
        (run (revoke (of_write no_fault) kept withdrawal) (declared no_fault narrow ∷ []))
        "session")
    ≡ false
revoke-IsPermanent_example =
    revoke-IsPermanent sorted kept withdrawal (declared no_fault narrow ∷ []) "session" is_there
