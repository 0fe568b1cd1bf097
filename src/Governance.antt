-- ===== src/Governance.antt =====
-- crates/tako-governance/src: what a deployment trusts.
pub mod Freshness
pub mod Rekor
pub mod Inclusion
pub mod Chain
pub mod Bundle
pub mod State
pub mod Catalogue
pub mod Examples
pub mod Pii
