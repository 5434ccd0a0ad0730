-- ===== src/Cgp.antt =====
-- Which evidence of a capability suffices (ugk/cgp/capability_sufficiency.py).
pub mod Sufficiency
pub mod Enforced
mod Tests
