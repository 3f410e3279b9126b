-- ===== src/Safety.antt =====
-- crates/tpt-t-safety/src: the filter between the operator's commands and the vehicle.
pub mod Floats
pub mod Wide
pub mod Veto
pub mod Latency
pub mod Spline
pub mod Geo
pub mod Limits
pub mod Loop
mod Tests
