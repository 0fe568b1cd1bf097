-- ===== src/Orchestrator.antt =====
-- crates/tako-orchestrator/src: what drives the provider calls of a request.
pub mod Types
pub mod SelfCaller
pub mod Single
pub mod AbMcts
pub mod Conductor
pub mod Routing
pub mod Verifiers
pub mod Trinity
pub mod Examples
