-- ===== src/Will.antt =====
-- Declared intent and its coverage of operations (ugk/intent.py, ugk/will.py).
pub mod Intent
pub mod Checker
pub mod Reach
pub mod Cover
pub mod Declared
mod Tests
