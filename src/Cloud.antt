-- ===== src/Cloud.antt =====
-- crates/tpt-t-cloud/src: the fan-out of media frames and the fleet of units.
pub mod Sfu
pub mod Fleet
pub mod Json
