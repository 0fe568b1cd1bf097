-- ===== src/Runtime/Examples.antt =====
-- The theorems on the runtime at concrete inputs.
use tako_ai_core.Common.{ℕ, suc, ◌+◌, ◌↔◌, ◌≡◌, String, [], ◌∷◌, arith}
use tako_ai_core.Core.Error.{circuit_open}
use tako_ai_core.Core.Effects.{Io, returns, raises}
use tako_ai_core.Core.Examples.{alice, question, answer, slow_provider, good_provider}
use tako_ai_core.Runtime.Fallback.{FallbackProvider, chat, calls}
use tako_ai_core.Runtime.Fallback.Order.{Answers, chat-Answers}
use tako_ai_core.Runtime.Retry.{RetryConfig, Pacing, with_retry}
use tako_ai_core.Runtime.Retry.Attempts.{Attempts, with_retry-Attempts}

abbrev chain : FallbackProvider ℕ ℕ ℕ
chain = record { primary = slow_provider; fallbacks = slow_provider ∷ good_provider ∷ [] }

chat-Answers_example :
    Answers
      (chain.primary.chat alice question)
      (calls (λ q. q.chat alice question) chain.fallbacks)
      0
      (returns answer 3)
    ↔ (chat chain alice question 0 ≡ returns answer 3)
chat-Answers_example = chat-Answers chain alice question 0 (returns answer 3)

abbrev pacing : Pacing ℕ ℕ
pacing = record {
  jitter_factor = λ jitter w. (1, w);
  mul_f64 = λ d factor. d;
  scale_ms = λ ms multiplier. ms + ms;
  sleep = λ d w. w + d;
}

abbrev three_attempts : RetryConfig ℕ
three_attempts = record {
  max_attempts = 3;
  initial_backoff = 100;
  max_backoff = 500;
  multiplier = 2;
  jitter = 0;
}

abbrev no_attempt : RetryConfig ℕ
no_attempt = record three_attempts { max_attempts = 0 }

-- fails twice
abbrev flaky : ℕ → Io ℕ String
flaky (suc (suc n)) w = returns "done" w
flaky n w = raises circuit_open w

with_retry-Attempts_example :
    Attempts pacing three_attempts flaky 500 3 0 7 (with_retry pacing three_attempts flaky 7)
with_retry-Attempts_example =
    with_retry-Attempts pacing three_attempts flaky 500 7 (omega arith) (omega arith) (omega arith)
