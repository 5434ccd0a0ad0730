-- ===== src/Cgp/Tests.antt =====
-- The policy in force (ugk/cgp/capability_sufficiency.py).
use ugk.Base.{false, some, ◌≡◌, ◌↔◌}
use ugk.Cgp.Sufficiency.{PolicyEntry, capability_sufficiency_policy, enforce_decision}
use ugk.Cgp.Enforced.{Met, IsEntry, enforce_decision-Met}

enforce_decision-Met_example :
    (enforce_decision capability_sufficiency_policy "external-consequential" "namespace_revoke"
        (some "WAIVED")
      ≡ false)
    ↔ ((entry : PolicyEntry)
        → IsEntry capability_sufficiency_policy "external-consequential" "namespace_revoke" entry
        → Met (some "WAIVED") entry)
enforce_decision-Met_example =
    enforce_decision-Met capability_sufficiency_policy "external-consequential" "namespace_revoke"
      (some "WAIVED")
