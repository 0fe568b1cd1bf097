-- ===== src/Runtime/Retry/Attempts.antt =====
-- How often, and after which pauses, `with_retry` calls.
use tako_ai_core.Common.{
  ℕ, zero, suc, ◌+◌, ◌≤◌, ◌<◌, ◌≡◌, refl, Option, none, some, true, false, Bool-cases, inl, inr,
  leb, arith,
}
use tako_ai_core.Core.Error.{TakoError, is_transient}
use tako_ai_core.Core.Effects.{Io, Outcome, returns, raises, Outcome-cases}
use tako_ai_core.Runtime.Retry.{
  RetryConfig, Pacing, next_delay, pause, retry_loop, with_retry, no_error,
}

module _ {W R T : Type 0} (pacing : Pacing W R) (config : RetryConfig R) (f : ℕ → Io W T) where
  -- What the loop may do with `left` calls to go, the next of them numbered `attempt`: every pause
  -- is drawn from a delay of at most `longest`.
  pub data Attempts (longest : ℕ) : ℕ → ℕ → W → Outcome W T → Type 0 where
    success :
        {left attempt : ℕ} {w w' : W} {v : T}
        → f attempt w ≡ returns v w'
        → Attempts longest (suc left) attempt w (returns v w')
    permanent :
        {left attempt : ℕ} {w w' : W} {e : TakoError}
        → f attempt w ≡ raises e w'
        → is_transient e ≡ false
        → Attempts longest (suc left) attempt w (raises e w')
    exhausted :
        {attempt : ℕ} {w w' : W} {e : TakoError}
        → f attempt w ≡ raises e w'
        → is_transient e ≡ true
        → Attempts longest 1 attempt w (raises e w')
    again :
        {left attempt delay : ℕ} {w w' : W} {e : TakoError} {o : Outcome W T}
        → f attempt w ≡ raises e w'
        → is_transient e ≡ true
        → delay ≤ longest
        → Attempts longest (suc left) (attempt + 1) (pause pacing config f delay w') o
        → Attempts longest (suc (suc left)) attempt w o

  next_delay-le : (delay : ℕ) → next_delay pacing config f delay ≤ config.max_backoff
  unfolding next_delay
  next_delay-le delay = ground arith

  retry_loop-Attempts :
      (longest : ℕ)
      → config.max_backoff ≤ longest
      → (left attempt delay : ℕ) (last : Option TakoError) (w : W)
      → attempt + suc left ≡ config.max_attempts
      → delay ≤ longest
      → Attempts longest
          (suc left)
          attempt
          w
          (retry_loop pacing config f (suc left) attempt delay last w)
  unfolding retry_loop
  retry_loop-Attempts longest b zero attempt delay last w n d = elim (Outcome-cases (f attempt w)) [
    | inl (v, w', h) ↦ rw (h, retry_loop) (success h)
    | inr (e, w', h) ↦ elim (Bool-cases (is_transient e)) [
      | inl t ↦
          let q : leb config.max_attempts (attempt + 1) ≡ true = ground arith in
          rw (h, t, q, retry_loop) (exhausted h t)
      | inr t ↦ rw (h, t, retry_loop) (permanent h t)
    ]
  ]
  retry_loop-Attempts longest b (suc left) attempt delay last w n d =
      elim (Outcome-cases (f attempt w)) [
        | inl (v, w', h) ↦ rw (h, retry_loop) (success h)
        | inr (e, w', h) ↦ elim (Bool-cases (is_transient e)) [
          | inl t ↦
              let q : leb config.max_attempts (attempt + 1) ≡ false = ground arith in
              rw (h, t, q, retry_loop)
                (again {delay = delay} h t d (
                  retry_loop-Attempts longest b left (attempt + 1)
                    (next_delay pacing config f delay) (some e) (pause pacing config f delay w')
                    (omega arith) (omega (arith, next_delay-le delay))))
          | inr t ↦ rw (h, t, retry_loop) (permanent h t)
        ]
      ]

  retry_loop_all :
      (longest rounds : ℕ) (w : W)
      → rounds ≡ config.max_attempts
      → 0 < rounds
      → config.initial_backoff ≤ longest
      → config.max_backoff ≤ longest
      → Attempts longest rounds 0 w
          (retry_loop pacing config f rounds 0 config.initial_backoff none w)
  retry_loop_all longest zero w n pos i b = absurd (omega arith)
  retry_loop_all longest (suc left) w n pos i b =
      retry_loop-Attempts longest b left 0 config.initial_backoff none w (omega arith) i

  retry_loop_none :
      (rounds delay : ℕ) (w : W)
      → rounds ≡ 0
      → retry_loop pacing config f rounds 0 delay none w ≡ raises no_error w
  unfolding retry_loop
  retry_loop_none zero delay w z = refl
  retry_loop_none (suc left) delay w z = absurd (omega arith)

  -- With at least one attempt allowed, the operation is called with the numbers 0, 1, … in order and
  -- at most `max_attempts` times; only a transient error leads to a pause and another call, and every
  -- pause comes from a delay of at most `longest`, if both configured delays are.
  pub with_retry-Attempts :
      (longest : ℕ) (w : W)
      → 0 < config.max_attempts
      → config.initial_backoff ≤ longest
      → config.max_backoff ≤ longest
      → Attempts longest config.max_attempts 0 w (with_retry pacing config f w)
  unfolding with_retry
  with_retry-Attempts longest w pos i b = retry_loop_all longest config.max_attempts w refl pos i b

  -- With no attempt allowed the operation is never called, and the error says so.
  pub with_retry_none :
      (w : W) → config.max_attempts ≡ 0 → with_retry pacing config f w ≡ raises no_error w
  unfolding with_retry
  with_retry_none w z = retry_loop_none config.max_attempts config.initial_backoff w z
