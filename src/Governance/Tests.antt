-- ===== src/Governance/Tests.antt =====
-- A lineage of two warrants that name each other (ugk/governance/warrant.py).
use ugk.Base.{◌≤◌, ◌≡◌, ◌↔◌, String, [], ◌∷◌, length}
use ugk.Json.{Items, nil}
use ugk.Governance.Warrant.{DecisionWarrant, WarrantStore, lineage_from}
use ugk.Governance.Lineage.{IsLineage, lineage_from-IsLineage}

abbrev warrant : String → String → DecisionWarrant
warrant hash prior = record {
  warrant_hash = hash;
  prior_warrant_hash = prior;
  constitutional_basis = nil;
  authority_result = 9101;
  jurisdiction_result = 9102;
  result = 9001;
  law_hash = "law";
  legend_hash = "legend";
  timestamp = "t";
}

abbrev cycle : WarrantStore
cycle = warrant "a" "b" ∷ warrant "b" "a" ∷ []

abbrev keep_order : Items → Items
keep_order items = items

lineage_from-IsLineage_example :
    ((lineage_from keep_order cycle "a" 5 ≡ cycle) ↔ IsLineage keep_order cycle 5 [] "a" cycle)
    × (length (lineage_from keep_order cycle "a" 5) ≤ 5)
lineage_from-IsLineage_example = lineage_from-IsLineage keep_order cycle "a" 5 cycle
