-- ===== src/Core.antt =====
-- crates/tpt-t-core/src: the operating modes, the mode state machine, the message bus and the
-- data of the links.
pub mod Mode
pub mod Ser
pub mod Table
pub mod Machine
pub mod Handover
pub mod Latch
pub mod Events
pub mod Race
pub mod Bus
pub mod Fanout
pub mod Mpmc
mod Tests
