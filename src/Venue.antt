-- ===== src/Venue.antt =====
-- operator/src/venue.rs, market.rs: an operator's venue, whose parts are the children.
pub mod Types
pub mod Signed
pub mod Rfq
pub mod Outbox
pub mod Quote
pub mod Pricing
pub mod Crossing
pub mod Flushing
pub mod Quoting
pub mod Listing
pub mod Making
pub mod Pulling
pub mod Books
pub mod Placing
pub mod Ticking
pub mod Steps
pub mod Laddering
pub mod Ticks
pub mod Toy
mod Tests
mod MakingTests
