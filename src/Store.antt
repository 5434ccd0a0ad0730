-- ===== src/Store.antt =====
-- ugk/storage/store.py: the receipt store.
pub mod Receipt
pub mod Body
pub mod Attempt
pub mod Effect
pub mod Emit
pub mod Continuation
pub mod Continued
pub mod World
pub mod Write
pub mod Append
pub mod Chain
pub mod Linkage
pub mod Prepared
pub mod Rows
pub mod Growth
pub mod Verdicts
pub mod Epoch
pub mod Pruning
pub mod Sealing
pub mod Noted
pub mod Undone
pub mod Retention
pub mod Seal
pub mod Samples
pub mod Built
mod Tests
pub mod Emission
pub mod Stripping
pub mod Frontier
pub mod Retry
