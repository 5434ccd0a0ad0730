-- ===== src/Authority.antt =====
-- ugk/authority/: the authority graph, capability attenuation and the set-valued verifier.
pub mod Edge
pub mod Graph
pub mod Climb
pub mod Capabilities
pub mod Attenuation
pub mod Chain
pub mod A1
pub mod CutSet
mod Tests
