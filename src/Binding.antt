-- ===== src/Binding.antt =====
-- ugk/storage/binding_m2.py: the four commitments of a receipt and its Merkle root.
pub mod Canon
pub mod Merkle
pub mod Inclusion
pub mod Disclosure
mod Tests
