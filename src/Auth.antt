-- ===== src/Auth.antt =====
-- crates/tako-compat/src/auth: who is calling, from a bearer token.
pub mod Static
pub mod Examples
pub mod Chained
use tako_ai_core.Common.{String}
use tako_ai_core.Core.Effects.{Io}
use tako_ai_core.Core.Types.{Principal}

-- the trait of auth/mod.rs
pub record AuthResolver (W : Type 0) : Type 0 where
  pub resolve : String → Io W Principal
