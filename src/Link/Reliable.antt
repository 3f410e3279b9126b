-- ===== src/Link/Reliable.antt =====
-- crates/tpt-t-link/src/reliable.rs: the selective-repeat channel. `Ack` is the acknowledgement,
-- `Rx` the receiver and `Tx` the sender; the modules beside them hold the proofs.
pub mod Ack
pub mod Advance
pub mod Codec
pub mod Rx
pub mod Steps
pub mod Tracking
pub mod Stream
pub mod Tx
pub mod Window
mod Tests
