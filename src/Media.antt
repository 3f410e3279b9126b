-- ===== src/Media.antt =====
-- crates/tpt-t-media/src: the memory pool for frames.
pub mod Pool
