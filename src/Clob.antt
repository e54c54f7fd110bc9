-- ===== src/Clob.antt =====
-- operator/src/clob: the shared order book's service, whose parts are the children.
pub mod Types
pub mod Pool
pub mod Pending
pub mod Peer
pub mod Steps
pub mod Entries
pub mod Admits
pub mod Keeps
pub mod Settled
pub mod Finality
pub mod Cancels
pub mod Excluded
pub mod Held
pub mod Attests
pub mod Driver
pub mod Watcher
pub mod Warrants
pub mod Drives
pub mod Watched
pub mod Landed
pub mod Submitted
pub mod Toy
mod Tests
mod DriverTests
