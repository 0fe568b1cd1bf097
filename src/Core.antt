-- ===== src/Core.antt =====
-- crates/tako-core/src: the types, the errors and the interfaces that the other crates share.
pub mod Error
pub mod Json
pub mod Types
pub mod Effects
pub mod Float
pub mod Traits
pub mod Examples
