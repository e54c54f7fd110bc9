-- ===== src/Settlement.antt =====
-- crates/settlement-core and crates/settlement: signed orders, their pairing, and attester quorums.
pub mod Types
pub mod Core
pub mod Fills
pub mod Toy
pub mod Signing
mod Tests
