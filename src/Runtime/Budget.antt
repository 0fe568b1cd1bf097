-- ===== src/Runtime/Budget.antt =====
-- crates/tako-runtime/src/budget.rs: the in-memory backend and the tracker.
pub mod Limits
pub mod Spend
pub mod Examples
use tako_ai_core.Common.{
  ℕ, ◌+◌, String, Option, none, some, List, [], ◌∷◌, ◌++◌, Bool, true, false, ltb, if◌then◌else◌,
  Dict, lookup, insert,
}
use tako_ai_core.Core.Error.{TakoError, Text, lit, num, budget_exhausted}
use tako_ai_core.Core.Effects.{Io, Outcome, returns, raises, Result, ok, err, ◌>>=◌, ◌>>◌, lift}
use tako_ai_core.Core.Types.{Principal, Budget, Usage, total, saturating_add, u64_max}
use tako_ai_core.Core.Float.{Float}

pub record TenantUsage (R : Type 0) : Type 0 where
  pub usd_today : R
  pub tokens_today : ℕ

pub record BudgetBackend (W R : Type 0) : Type 0 where
  pub current_usage : String → Io W (TenantUsage R)
  pub record_usage : String → R → ℕ → Io W (Unit {0})

pub record BudgetTracker (W R : Type 0) : Type 0 where
  pub backend : BudgetBackend W R
  pub budget : Budget R

module _ (F : Float) where
  open F use {Real, zero, add, lt, show}

  -- `unwrap_or_default`
  abbrev pub or_default : Option (TenantUsage Real) → TenantUsage Real
  or_default none = record { usd_today = zero; tokens_today = 0 }
  or_default (some u) = u

  -- `InMemoryBudgetBackend::current_usage`
  pub usage_of : String → Dict (TenantUsage Real) → TenantUsage Real
  usage_of tenant_id inner = or_default (lookup tenant_id inner)

  -- `InMemoryBudgetBackend::record`
  pub add_usage : String → Real → ℕ → Dict (TenantUsage Real) → Dict (TenantUsage Real)
  unfolding usage_of
  add_usage tenant_id usd tokens inner =
      let entry = usage_of tenant_id inner in
      insert tenant_id
        (record {
          usd_today = add entry.usd_today usd;
          tokens_today = saturating_add u64_max entry.tokens_today tokens;
        })
        inner

  -- the backend over its locked map
  abbrev pub in_memory : BudgetBackend (Dict (TenantUsage Real)) Real
  in_memory = record {
    current_usage = λ tenant_id inner. returns (usage_of tenant_id inner) inner;
    record_usage = λ tenant_id usd tokens inner. returns tt (add_usage tenant_id usd tokens inner);
  }

  -- `if let Some(max) = limit && value > max`
  abbrev pub exceeds : Real → Option Real → Bool
  exceeds value none = false
  exceeds value (some max) = lt max value

  abbrev pub exceeds_tokens : ℕ → Option ℕ → Bool
  exceeds_tokens value none = false
  exceeds_tokens value (some max) = ltb max value

  -- `${max:.n}` in the messages
  abbrev show_limit : ℕ → Option Real → Text
  show_limit n none = []
  show_limit n (some max) = lit (show n max) ∷ []

  abbrev show_tokens : Option ℕ → Text
  show_tokens none = []
  show_tokens (some max) = num max ∷ []

  -- the checks that do not ask the backend
  unfoldable pub check_request : Budget Real → Real → ℕ → Result (Unit {0})
  check_request b estimated_usd estimated_tokens =
      if exceeds estimated_usd b.max_usd_per_request
      then err (
          budget_exhausted (
            lit "request estimated at $"
            ∷ lit (show 4 estimated_usd)
            ∷ lit " exceeds per-request cap $"
            ∷ show_limit 4 b.max_usd_per_request))
      else if exceeds_tokens estimated_tokens b.max_tokens_per_request
      then err (
          budget_exhausted (
            lit "request estimated at "
            ∷ num estimated_tokens
            ∷ lit " tokens exceeds per-request cap "
            ∷ show_tokens b.max_tokens_per_request))
      else ok tt

  -- the checks of the tenant's usage so far
  pub check_day : Budget Real → String → TenantUsage Real → Real → Result (Unit {0})
  check_day b tenant_id cur estimated_usd =
      if exceeds (add cur.usd_today estimated_usd) b.max_usd_per_day
      then err (
          budget_exhausted (
            lit "tenant `"
            ∷ lit tenant_id
            ∷ lit "` would exceed daily cap $"
            ∷ show_limit 2 b.max_usd_per_day))
      else if exceeds (add cur.usd_today estimated_usd)
          (lookup tenant_id b.max_usd_per_tenant_per_day)
      then err (
          budget_exhausted (
            lit "tenant `"
            ∷ lit tenant_id
            ∷ lit "` would exceed tenant-specific daily cap $"
            ∷ show_limit 2 (lookup tenant_id b.max_usd_per_tenant_per_day)))
      else ok tt

  module _ {W : Type 0} where
    pub pre_check : BudgetTracker W Real → Principal → Real → ℕ → Io W (Unit {0})
    unfolding check_request check_day
    pre_check t principal estimated_usd estimated_tokens = do
      lift (check_request t.budget estimated_usd estimated_tokens)
      cur ← t.backend.current_usage principal.tenant_id
      lift (check_day t.budget principal.tenant_id cur estimated_usd)

    pub record_spend : BudgetTracker W Real → Principal → Real → Usage → Io W (Unit {0})
    record_spend t principal usd usage =
        t.backend.record_usage principal.tenant_id usd (total usage)
