-- ===== src/Spend.antt =====
-- operator/src/spend.rs: the spend rail, whose parts are the children.
pub mod Types
pub mod Serve
pub mod Channel
pub mod Serving
mod Tests
