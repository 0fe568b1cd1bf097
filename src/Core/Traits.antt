-- ===== src/Core/Traits.antt =====
-- crates/tako-core/src/traits: the interfaces that the orchestrators and wrappers call.
use tako_ai_core.Common.{String, List, Option}
use tako_ai_core.Core.Effects.{Io}
use tako_ai_core.Core.Types.{
  Principal, ChatRequest, ChatResponse, RoutingDecision, PolicyContext, PolicyDecision,
}

-- `LlmProvider`; `Stream` is the type of an open stream of chunks, `R` that of the floats.
pub record LlmProvider (W R Stream : Type 0) : Type 0 where
  pub id : String
  pub chat : Principal → ChatRequest R → Io W ChatResponse
  pub stream : Principal → ChatRequest R → Io W Stream
  pub estimate_cost_usd : ChatRequest R → R

pub record PolicyEngine (W : Type 0) : Type 0 where
  pub evaluate : Principal → PolicyContext → Io W PolicyDecision

pub record Router (W R : Type 0) : Type 0 where
  pub route : Principal → ChatRequest R → List String → Io W (RoutingDecision R)

pub record ConfidenceGuard (W R : Type 0) : Type 0 where
  pub evaluate : Principal → String → Io W R
  pub evaluate_streaming : Principal → String → Io W (Option R)

-- scores a complete rollout: the principal, the prompt and the text
pub record Verifier (W R : Type 0) : Type 0 where
  pub score : Principal → String → String → Io W R
  pub evaluate_streaming : Principal → String → Io W (Option R)
