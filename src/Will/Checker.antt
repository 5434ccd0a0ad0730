-- ===== src/Will/Checker.antt =====
-- Coverage of an operation by the declarations in force (`WillChecker`, ugk/will.py). Sets of
-- operations are lists under `elem`.
use ugk.Base.{
  ℕ, zero, suc, ◌+◌, String, Bool, true, Option, none, some, List, [], ◌∷◌, ◌++◌, not, keep, ltb,
  leb, length, if◌then◌else◌,
}
use ugk.Base.Names.{elem}
use ugk.Base.Dict.{Dict}
use ugk.Will.Intent.{IntentDeclaration}

pub data CoverageOutcome : Type 0 where
  covering : String → CoverageOutcome
  outside : String → CoverageOutcome

-- The operations that every production edge out of `covered` yields.
unfoldable pub produced : Dict (List String) → List String → List String
produced [] covered = []
produced ((source, targets) ∷ edges) covered =
    let rest = produced edges covered in if elem source covered then targets ++ rest else rest

-- `new -= covered`
unfoldable pub fresh : Dict (List String) → List String → List String
fresh edges covered = keep (λ op. not (elem op covered)) (produced edges covered)

-- `depth is None or steps < depth`
unfoldable pub within : Option ℕ → ℕ → Bool
within none steps = true
within (some depth) steps = ltb steps depth

-- The end of a round of `_closure`: it goes on, unless nothing was new.
unfoldable pub round : (List String → List String) → List String → List String → List String
round again covered [] = covered
round again covered (op ∷ ops) = again (covered ++ op ∷ ops)

-- The loop of `_closure`.
unfoldable pub closure_loop : ℕ → Dict (List String) → Option ℕ → ℕ → List String → List String
unfolding round
closure_loop zero edges depth steps covered = covered
closure_loop (suc fuel) edges depth steps covered =
    let again = closure_loop fuel edges depth (steps + 1) in
    if within depth steps then round again covered (fresh edges covered) else covered

-- Every name that stands behind an edge.
unfoldable pub all_targets : Dict (List String) → List String
all_targets [] = []
all_targets ((source, targets) ∷ edges) = targets ++ all_targets edges

-- Each round adds a name that stands behind an edge, so that their number is enough.
unfoldable pub closure : List String → Dict (List String) → Option ℕ → List String
closure seed edges depth = closure_loop (suc (length (all_targets edges))) edges depth 0 seed

-- `sorted(declarations, key=lambda d: len(d.declared_ops))`, which is stable.
unfoldable pub insert_by_size : IntentDeclaration → List IntentDeclaration → List IntentDeclaration
insert_by_size d [] = d ∷ []
insert_by_size d (e ∷ es) =
    if leb (length d.declared_ops) (length e.declared_ops)
    then d ∷ e ∷ es
    else e ∷ insert_by_size d es

unfoldable pub by_size : List IntentDeclaration → List IntentDeclaration
by_size [] = []
by_size (d ∷ ds) = insert_by_size d (by_size ds)

-- The first declaration that passes a test.
unfoldable pub first_hash : (IntentDeclaration → Bool) → List IntentDeclaration → Option String
first_hash test [] = none
first_hash test (d ∷ ds) = if test d then some d.declaration_hash else first_hash test ds

hash_or : Option String → String → String
hash_or none other = other
hash_or (some hash) other = hash

-- A direct cover is preferred to one by the closure.
unfoldable pub find_cover : String → List IntentDeclaration → Dict (List String) → Option ℕ → String
unfolding hash_or
find_cover op declarations edges depth =
    let sorted = by_size declarations in
    hash_or (first_hash (λ d. elem op d.declared_ops) sorted)
      (hash_or (first_hash (λ d. elem op (closure d.declared_ops edges depth)) sorted) "")

-- All operations declared.
unfoldable pub seed_of : List IntentDeclaration → List String
seed_of [] = []
seed_of (d ∷ ds) = d.declared_ops ++ seed_of ds

-- `covers`, from the operations declared on.
unfoldable pub covered_from :
    String → List IntentDeclaration → Dict (List String) → Option ℕ → List String → CoverageOutcome
covered_from op declarations edges depth [] = outside "WL-005"
covered_from op declarations edges depth (o ∷ seed) =
    if elem op (closure (o ∷ seed) edges depth)
    then covering (find_cover op declarations edges depth)
    else outside "WL-001"

unfoldable pub covers :
    String → List IntentDeclaration → Dict (List String) → Option ℕ → CoverageOutcome
unfolding covered_from
covers op declarations edges depth = covered_from op declarations edges depth (seed_of declarations)
