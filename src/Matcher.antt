-- ===== src/Matcher.antt =====
-- crates/matcher: the epoch batch of a set of signed orders, and the consensus over it.
pub mod Epoch
pub mod Sorting
pub mod Canonical
pub mod SetDeterminism
pub mod Consensus
pub mod Election
pub mod Quorum
pub mod Verdicts
mod Tests
