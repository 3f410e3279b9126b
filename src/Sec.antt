-- ===== src/Sec.antt =====
-- crates/tpt-t-sec/src: who may do what, and how a unit's attestation is admitted.
pub mod Rbac
pub mod Grants
pub mod Identity
pub mod Wire
pub mod ZeroTrust
pub mod Admission
pub mod Cipher
pub mod Session
mod Tests
