-- ===== src/Leto.antt =====
-- The protocol Leto, consensus/src/server/leto.
pub mod RoundContext
pub mod LeaderContext
pub mod ChainState
pub mod Synchronizer
pub mod Engine
