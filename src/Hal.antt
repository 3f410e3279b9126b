-- ===== src/Hal.antt =====
-- crates/tpt-t-hal/src: the drivers' protocols.
pub mod Mavlink
