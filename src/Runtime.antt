-- ===== src/Runtime.antt =====
-- crates/tako-runtime/src: what wraps a provider call.
pub mod Fallback
pub mod Retry
pub mod Budget
pub mod Examples
