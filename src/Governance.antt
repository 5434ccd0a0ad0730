-- ===== src/Governance.antt =====
-- Decision warrants and their store (ugk/governance/warrant.py).
pub mod Warrant
pub mod Lineage
mod Tests
