-- ===== src/Link/Mesh.antt =====
-- crates/tpt-t-link/src/mesh.rs: the table of neighbors, open-addressed by unit id.
pub mod Beacon
pub mod Codec
pub mod Table
pub mod Probe
pub mod Expire
mod Tests
