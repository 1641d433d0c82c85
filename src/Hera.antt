-- ===== src/Hera.antt =====
-- The protocol Hera, consensus/src/server/hera.
pub mod MultiDataChain
