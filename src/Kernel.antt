-- ===== src/Kernel.antt =====
-- ugk/kernel.py: `execute` with its refusals and its classes of effects, and the governed acts on the
-- trails of outside effects.
pub mod Node
pub mod Irreversible
pub mod Order
pub mod Request
pub mod Preflight
pub mod Refuse
pub mod Horizon
pub mod Admit
pub mod Execute
pub mod Continuation
pub mod Resumed
pub mod Marked
pub mod Resolved
pub mod Graded
pub mod Reconcile
pub mod Compensate
pub mod Rows
pub mod Screen
pub mod Called
pub mod Before
pub mod Atomic
pub mod Governed
pub mod Offset
pub mod Standing
pub mod Passes
pub mod Withdrawn
mod Tests
mod DeferralTests
