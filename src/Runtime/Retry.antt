-- ===== src/Runtime/Retry.antt =====
-- crates/tako-runtime/src/retry.rs: `with_retry`. Durations are in nanoseconds.
pub mod Attempts
use tako_ai_core.Common.{
  ℕ, zero, suc, ◌+◌, ◌*◌, ◌/◌, ◌^◌, String, Option, none, some, List, [], ◌∷◌, leb, if◌then◌else◌,
}
use tako_ai_core.Core.Error.{TakoError, invalid, lit, is_transient}
use tako_ai_core.Core.Effects.{Io, Outcome, returns, raises}

pub record RetryConfig (R : Type 0) : Type 0 where
  pub max_attempts : ℕ
  pub initial_backoff : ℕ
  pub max_backoff : ℕ
  pub multiplier : R
  pub jitter : R

-- The random number generator, the timer and the `f64` arithmetic of the loop.
pub record Pacing (W R : Type 0) : Type 0 where
  -- `1.0 + rng.gen_range(0.0..=jitter)`
  pub jitter_factor : R → W → R × W
  -- `Duration::mul_f64`
  pub mul_f64 : ℕ → R → ℕ
  -- `(ms as f64 * multiplier) as u64`
  pub scale_ms : ℕ → R → ℕ
  -- `tokio::time::sleep`
  pub sleep : ℕ → W → W

abbrev pub nanos_per_milli : ℕ
nanos_per_milli = 10 ^ 6

abbrev pub shorter : ℕ → ℕ → ℕ
shorter a b = if leb a b then a else b

abbrev pub or_else : Option TakoError → TakoError → TakoError
or_else none e = e
or_else (some e') e = e'

abbrev pub no_error : TakoError
no_error = invalid (lit "retry loop exited without an error" ∷ [])

module _ {W R T : Type 0} (pacing : Pacing W R) (config : RetryConfig R) (f : ℕ → Io W T) where
  open pacing use {jitter_factor, mul_f64, scale_ms, sleep}

  -- `Duration::from_millis(next_ms).min(config.max_backoff)`
  pub next_delay : ℕ → ℕ
  next_delay delay =
      shorter (scale_ms (delay / nanos_per_milli) config.multiplier * nanos_per_milli)
        config.max_backoff

  pub pause : ℕ → W → W
  pause delay w =
      let (factor, w') = jitter_factor config.jitter w in sleep (mul_f64 delay factor) w'

  -- the `for` loop, over the rounds that are left
  pub retry_loop : ℕ → ℕ → ℕ → Option TakoError → Io W T
  retry_loop zero attempt delay last_err w = raises (or_else last_err no_error) w
  retry_loop (suc rounds) attempt delay last_err w = elim (f attempt w) [
    | returns v w' ↦ returns v w'
    | raises e w' ↦
        let again = retry_loop rounds (attempt + 1) (next_delay delay) (some e) (pause delay w') in
        if is_transient e
        then (if leb config.max_attempts (attempt + 1) then raises e w' else again)
        else raises e w'
  ]

  pub with_retry : Io W T
  with_retry = retry_loop config.max_attempts 0 config.initial_backoff none
