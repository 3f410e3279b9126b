-- ===== src/Link/Backpressure.antt =====
-- crates/tpt-t-link/src/backpressure.rs: the congestion estimate and the token bucket.
pub mod Signal
pub mod Rate
pub mod Levels
mod Tests
