-- ===== src/Analytics.antt =====
-- crates/tpt-t-analytics/src: the flight-data recorder and the file that it writes.
pub mod DirectIo
pub mod Record
