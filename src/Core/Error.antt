-- ===== src/Core/Error.antt =====
-- crates/tako-core/src/error.rs: `TakoError` and its classifier.
use tako_ai_core.Common.{ℕ, String, Option, none, some, List, Bool, true, false, ◌&&◌, leb, ltb}

-- A formatted message: its literal pieces and the values that `format!` splices in.
pub data Fragment : Type 0 where
  lit : String → Fragment
  num : ℕ → Fragment

abbrev pub Text : Type 0
Text = List Fragment

pub record ProviderErrorDetails : Type 0 where
  pub provider_id : String
  pub model : String
  pub status_code : Option ℕ
  pub vendor_error_code : Option String
  pub raw_body : Option Text

-- `source`, the boxed cause of a vendor error, is read by no code here and is left out.
-- Durations are in nanoseconds.
pub data TakoError : Type 0 where
  provider : Text → ProviderErrorDetails → TakoError
  transport policy_denied budget_exhausted : Text → TakoError
  rate_limited : ℕ → TakoError
  circuit_open : TakoError
  tool invalid not_found : Text → TakoError
  cancelled : TakoError
  timeout : ℕ → TakoError
  io serde : Text → TakoError

pub provider_error : String → String → Text → TakoError
provider_error provider_id model message = provider message (record {
  provider_id = provider_id;
  model = model;
  status_code = none;
  vendor_error_code = none;
  raw_body = none;
})

unfoldable pub with_status : TakoError → ℕ → TakoError
with_status (provider message details) status =
    provider message (record details { status_code = some status })
with_status e status = e

unfoldable pub with_raw_body : TakoError → Text → TakoError
with_raw_body (provider message details) body =
    provider message (record details { raw_body = some body })
with_raw_body e body = e

-- `Some(s) if (500..600).contains(&s)`
unfoldable pub server_error : Option ℕ → Bool
server_error none = false
server_error (some s) = leb 500 s && ltb s 600

unfoldable pub is_transient : TakoError → Bool
unfolding server_error
is_transient (rate_limited _) = true
is_transient (timeout _) = true
is_transient (transport _) = true
is_transient circuit_open = true
is_transient (provider _ details) = server_error details.status_code
is_transient _ = false
