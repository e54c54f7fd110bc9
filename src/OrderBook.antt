-- ===== src/OrderBook.antt =====
-- crates/orderbook: the limit orderbook of one instrument.
pub mod Types
pub mod Native
pub mod Engine
pub mod Sorted
pub mod Loop
pub mod Reference
pub mod Side
pub mod Invariant
pub mod LoopKeeps
pub mod Keeps
pub mod Prints
pub mod Admission
pub mod Cancel
mod Tests
