-- ===== src/Link.antt =====
-- crates/tpt-t-link/src: the reliable control channel, the backpressure signal, the mesh table and the
-- frames of the multiplexer.
pub mod Reliable
pub mod Backpressure
pub mod Mesh
pub mod Crc
pub mod Mux
pub mod Service
