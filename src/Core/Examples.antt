-- ===== src/Core/Examples.antt =====
-- Concrete inputs for the examples: natural numbers as amounts, a caller, a request, answers.
use tako_ai_core.Common.{ℕ, ◌+◌, [], ◌∷◌, leb, ltb}
use tako_ai_core.Core.Error.{timeout}
use tako_ai_core.Core.Effects.{returns, raises}
use tako_ai_core.Core.Float.{Float}
use tako_ai_core.Core.Types.{
  Principal, anonymous, ChatRequest, new_request, user_message, assistant_message, ChatResponse,
  FinishReason,
}
use tako_ai_core.Core.Traits.{LlmProvider}

abbrev pub naturals : Float
naturals = record {
  Real = ℕ;
  zero = 0;
  add = λ a b. a + b;
  lt = ltb;
  le = leb;
  show = λ digits amount. "";
}

abbrev pub alice : Principal
alice = record anonymous { tenant_id = "acme"; user_id = "alice" }

abbrev pub question : ChatRequest ℕ
question = new_request "some-model" (user_message "why?" ∷ [])

abbrev pub answer : ChatResponse
answer = record {
  message = assistant_message "because";
  finish_reason = FinishReason.stop;
  usage = record { input_tokens = 3; output_tokens = 4 };
  raw = [];
}

-- providers over a counter of calls
abbrev pub slow_provider : LlmProvider ℕ ℕ ℕ
slow_provider = record {
  id = "slow";
  chat = λ who req n. raises (timeout 30) (n + 1);
  stream = λ who req n. raises (timeout 30) (n + 1);
  estimate_cost_usd = λ req. 2;
}

abbrev pub good_provider : LlmProvider ℕ ℕ ℕ
good_provider = record {
  id = "good";
  chat = λ who req n. returns answer (n + 1);
  stream = λ who req n. returns n (n + 1);
  estimate_cost_usd = λ req. 1;
}
