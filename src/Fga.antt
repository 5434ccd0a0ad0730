-- ===== src/Fga.antt =====
-- ugk/fga/: the decision surfaces, the trace vector, its aggregation and the terminal outcome.
pub mod Surface
pub mod Trace
pub mod Aggregate
pub mod Terminal
pub mod Outcomes
pub mod Receipts
pub mod Written
mod Tests
