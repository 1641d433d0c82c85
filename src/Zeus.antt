-- ===== src/Zeus.antt =====
-- The protocol Zeus, consensus/src/server/zeus and consensus/src/types/zeus.rs.
pub mod Types
pub mod Messages
pub mod Rounds
pub mod DataChain
pub mod Store
pub mod Attestations
pub mod Committing
pub mod Admitting
pub mod Engine
