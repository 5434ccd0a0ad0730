-- ===== src/Integrity.antt =====
-- ugk/integrity/: the receipt trails of effects outside the store.
pub mod Trail
pub mod Irreversible
pub mod Reversible
pub mod InDoubt
pub mod Arc
mod Tests
