-- ===== src/Runtime/Fallback.antt =====
-- crates/tako-runtime/src/fallback.rs: a primary provider and an ordered list of fallbacks. The
-- warnings that are logged on the way are left out.
pub mod Order
use tako_ai_core.Common.{String, List, [], ◌∷◌, if◌then◌else◌}
use tako_ai_core.Core.Error.{TakoError, is_transient}
use tako_ai_core.Core.Effects.{Io, Outcome, returns, raises}
use tako_ai_core.Core.Types.{Principal, ChatRequest, ChatResponse}
use tako_ai_core.Core.Traits.{LlmProvider}

pub record FallbackProvider (W R Stream : Type 0) : Type 0 where
  pub primary : LlmProvider W R Stream
  pub fallbacks : List (LlmProvider W R Stream)

module _ {W A : Type 0} where
  -- the `for` loop over the fallbacks; `last_err` is the error that the loop came with
  pub cascade : List (Io W A) → TakoError → Io W A
  cascade [] last_err w = raises last_err w
  cascade (call ∷ rest) last_err w = elim (call w) [
    | returns r w' ↦ returns r w'
    | raises e w' ↦ let next = cascade rest e w' in if is_transient e then next else raises e w'
  ]

  -- the `match` on the primary's result, and the loop behind it
  pub try_all : Io W A → List (Io W A) → Io W A
  try_all primary fallbacks w = elim (primary w) [
    | returns r w' ↦ returns r w'
    | raises e w' ↦ if is_transient e then cascade fallbacks e w' else raises e w'
  ]

module _ {W R Stream : Type 0} where
  abbrev pub calls :
      {A : Type 0}
      → (LlmProvider W R Stream → Io W A)
      → List (LlmProvider W R Stream)
      → List (Io W A)
  calls f [] = []
  calls f (p ∷ ps) = f p ∷ calls f ps

  pub id : FallbackProvider W R Stream → String
  id p = p.primary.id

  pub chat : FallbackProvider W R Stream → Principal → ChatRequest R → Io W ChatResponse
  chat p principal req =
      try_all (p.primary.chat principal req) (calls (λ q. q.chat principal req) p.fallbacks)

  pub stream : FallbackProvider W R Stream → Principal → ChatRequest R → Io W Stream
  stream p principal req =
      try_all (p.primary.stream principal req) (calls (λ q. q.stream principal req) p.fallbacks)

  pub estimate_cost_usd : FallbackProvider W R Stream → ChatRequest R → R
  estimate_cost_usd p req = p.primary.estimate_cost_usd req
