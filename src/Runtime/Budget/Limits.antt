-- ===== src/Runtime/Budget/Limits.antt =====
-- When `pre_check` lets a request through.
use tako_ai_core.Common.{
  ℕ, ◌≤◌, String, ◌≡◌, ◌↔◌, ◌⊎◌, refl, true, false, Option, none, some, arith, lookup,
}
use tako_ai_core.Core.Error.{TakoError, Text, budget_exhausted}
use tako_ai_core.Core.Effects.{returns, raises}
use tako_ai_core.Core.Types.{Principal, Budget}
use tako_ai_core.Core.Float.{Float}
use tako_ai_core.Runtime.Budget.{TenantUsage, BudgetTracker, exceeds, exceeds_tokens, pre_check}

module _ (F : Float) where
  open F use {Real, add, lt}

  -- `value` is not above a limit that is set.
  abbrev pub Within : Real → Option Real → Type 0
  Within value limit = (max : Real) → limit ≡ some max → lt max value ≡ false

  abbrev pub WithinTokens : ℕ → Option ℕ → Type 0
  WithinTokens value limit = (max : ℕ) → limit ≡ some max → value ≤ max

  pub record Fits (b : Budget Real) (tenant : String) (today usd : Real) (tokens : ℕ) : Type 0 where
    pub request : Within usd b.max_usd_per_request
    pub request_tokens : WithinTokens tokens b.max_tokens_per_request
    pub day : Within (add today usd) b.max_usd_per_day
    pub tenant_day : Within (add today usd) (lookup tenant b.max_usd_per_tenant_per_day)

  exceeds-Within : (v : Real) (l : Option Real) → (exceeds F v l ≡ false) ↔ Within v l
  exceeds-Within v none = (λ h max e. cc, λ h. refl)
  exceeds-Within v (some m) = (λ h max e. cc, λ h. h m refl)

  exceeds-WithinTokens : (v : ℕ) (l : Option ℕ) → (exceeds_tokens F v l ≡ false) ↔ WithinTokens v l
  exceeds-WithinTokens v none = (λ h max e. cc, λ h. refl)
  exceeds-WithinTokens v (some m) = (λ h max e. ground arith, λ h. let p = h m refl in ground arith)

  module _ {W : Type 0} (t : BudgetTracker W Real) (p : Principal) (usd : Real) (tokens : ℕ) where
    pre_check-passes :
        (u : TenantUsage Real) (w w' : W)
        → t.backend.current_usage p.tenant_id w ≡ returns u w'
        → pre_check F t p usd tokens w ≡ returns tt w'
        → (exceeds F usd t.budget.max_usd_per_request ≡ false)
          × (exceeds_tokens F tokens t.budget.max_tokens_per_request ≡ false)
          × (exceeds F (add u.usd_today usd) t.budget.max_usd_per_day ≡ false)
          × (exceeds F
                (add u.usd_today usd)
                (lookup p.tenant_id t.budget.max_usd_per_tenant_per_day)
              ≡ false)
    unfolding pre_check
    pre_check-passes u w w' answers h = ground arith

    passes-pre_check :
        (u : TenantUsage Real) (w w' : W)
        → t.backend.current_usage p.tenant_id w ≡ returns u w'
        → exceeds F usd t.budget.max_usd_per_request ≡ false
        → exceeds_tokens F tokens t.budget.max_tokens_per_request ≡ false
        → exceeds F (add u.usd_today usd) t.budget.max_usd_per_day ≡ false
        → exceeds F (add u.usd_today usd) (lookup p.tenant_id t.budget.max_usd_per_tenant_per_day)
          ≡ false
        → pre_check F t p usd tokens w ≡ returns tt w'
    unfolding pre_check
    passes-pre_check u w w' answers a b c d = ground arith

    -- If the backend answers `u`, `pre_check` succeeds exactly when the estimate fits all four
    -- limits: per request in dollars and tokens, and per day with what `u` says was spent.
    pub pre_check-Fits :
        (u : TenantUsage Real) (w w' : W)
        → t.backend.current_usage p.tenant_id w ≡ returns u w'
        → (pre_check F t p usd tokens w ≡ returns tt w')
          ↔ Fits t.budget p.tenant_id u.usd_today usd tokens
    pre_check-Fits u w w' answers = (
      (λ h.
          let (a, b, c, d) = pre_check-passes u w w' answers h in
          record {
            request = (exceeds-Within _ _).0 a;
            request_tokens = (exceeds-WithinTokens _ _).0 b;
            day = (exceeds-Within _ _).0 c;
            tenant_day = (exceeds-Within _ _).0 d;
          }),
      λ h.
          passes-pre_check u w w' answers ((exceeds-Within _ _).1 h.request)
            ((exceeds-WithinTokens _ _).1 h.request_tokens) ((exceeds-Within _ _).1 h.day)
            ((exceeds-Within _ _).1 h.tenant_day),
    )

    -- Whatever makes `pre_check` fail, if the backend answers the error is `BudgetExhausted`, and if
    -- the estimate breaks a limit per request the backend is not even asked.
    pub pre_check_refusal :
        (u : TenantUsage Real) (e : TakoError) (w w' w'' : W)
        → t.backend.current_usage p.tenant_id w ≡ returns u w'
        → pre_check F t p usd tokens w ≡ raises e w''
        → ((msg : Text) × (e ≡ budget_exhausted msg))
          × ((exceeds F usd t.budget.max_usd_per_request ≡ true)
                ⊎ (exceeds_tokens F tokens t.budget.max_tokens_per_request ≡ true)
              → w'' ≡ w)
    unfolding pre_check
    pre_check_refusal u e w w' w'' answers h = (ground arith, ground arith)
