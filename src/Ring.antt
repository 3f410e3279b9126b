-- ===== src/Ring.antt =====
-- crates/tpt-t-ring/src/spsc.rs and shared.rs: the wait-free single-producer, single-consumer ring.
-- `Spsc` holds the operations, `Bounded` the queue that a client sees, and `Refine` the proof that
-- the ring behaves as that queue, across the wrap of its cursors.
pub mod Spsc
pub mod Bounded
pub mod Window
pub mod Refine
pub mod Runs
mod Tests
