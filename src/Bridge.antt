-- ===== src/Bridge.antt =====
-- crates/tpt-t-domain-bridge/src: the handover between a domain's autonomy and an operator.
pub mod Lifecycle
pub mod Session
