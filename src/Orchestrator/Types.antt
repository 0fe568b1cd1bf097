-- ===== src/Orchestrator/Types.antt =====
-- crates/tako-orchestrator/src/types.rs and the trait `Orchestrator` of lib.rs.
use tako_ai_core.Common.{ℕ, String, Option, List}
use tako_ai_core.Core.Effects.{Io}
use tako_ai_core.Core.Types.{Message, Usage, Principal}

pub record OrchInput : Type 0 where
  pub messages : List Message
  pub system : Option String

pub record OrchOutput : Type 0 where
  pub text : String
  pub message : Message
  pub usage : Usage
  pub steps : ℕ

-- the trait's `run`; its streams are not modelled
pub record Orchestrator (W : Type 0) : Type 0 where
  pub run : Principal → OrchInput → Io W OrchOutput
