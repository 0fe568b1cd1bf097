-- ===== src/Runtime/Budget/Spend.antt =====
-- What the in-memory backend adds up, and what it keeps of the limits.
use tako_ai_core.Common.{
  ℕ, String, ◌≡◌, true, false, Bool-cases, inl, inr, some, List, [], ◌∷◌, arith, lookup,
  lookup-insert, eq_iff, str_eq, if◌then◌else◌, Dict,
}
use tako_ai_core.Core.Effects.{Io, Outcome, returns, raises, ◌>>◌}
use tako_ai_core.Core.Types.{Principal, Budget, Usage, total, saturating_add, u64_max}
use tako_ai_core.Core.Float.{Float}
use tako_ai_core.Runtime.Budget.{
  TenantUsage, BudgetTracker, in_memory, usage_of, add_usage, exceeds, pre_check, record_spend,
}

module _ (F : Float) where
  open F use {Real, zero, add, lt}

  abbrev pub Ledger : Type 0
  Ledger = Dict (TenantUsage Real)

  -- One charge adds to its tenant's sums and leaves every other tenant's alone.
  pub usage_of-add_usage :
      (k j : String) (usd : Real) (tokens : ℕ) (m : Ledger)
      → usage_of F j (add_usage F k usd tokens m) ≡ (
          if str_eq k j
          then record {
            usd_today = add (usage_of F k m).usd_today usd;
            tokens_today = saturating_add u64_max (usage_of F k m).tokens_today tokens;
          }
          else usage_of F j m)
  unfolding add_usage
  usage_of-add_usage k j usd tokens m = elim (Bool-cases (str_eq k j)) [
    | inl same ↦ rw (lookup-insert, same)
    | inr other ↦ rw (lookup-insert, other)
  ]

  -- A request as the orchestrators meter it: checked at its estimate, and recorded at the estimate
  -- once the provider has answered.
  pub record Request : Type 0 where
    pub principal : Principal
    pub estimated_usd : Real
    pub estimated_tokens : ℕ
    pub usage : Usage

  abbrev pub tracker : Budget Real → BudgetTracker Ledger Real
  tracker b = record { backend = in_memory F; budget = b }

  pub charge : Budget Real → Request → Io Ledger (Unit {0})
  charge b r = do
    pre_check F (tracker b) r.principal r.estimated_usd r.estimated_tokens
    record_spend F (tracker b) r.principal r.estimated_usd r.usage

  abbrev pub ledger_of : Outcome Ledger (Unit {0}) → Ledger
  ledger_of (returns _ m) = m
  ledger_of (raises _ m) = m

  -- requests one after the other; a refused one ends only itself
  pub charges : Budget Real → List Request → Ledger → Ledger
  charges b [] m = m
  charges b (r ∷ rs) m = charges b rs (ledger_of (charge b r m))

  -- No tenant is above a daily limit.
  pub record IsCapped (b : Budget Real) (m : Ledger) : Type 0 where
    pub day : (k : String) → exceeds F (usage_of F k m).usd_today b.max_usd_per_day ≡ false
    pub tenant_day :
        (k : String)
        → exceeds F (usage_of F k m).usd_today (lookup k b.max_usd_per_tenant_per_day) ≡ false

  -- The limits of the day, for the tenant of one request.
  charge_cases :
      (P : Ledger → Type 0) (b : Budget Real) (r : Request) (m : Ledger)
      → let k = r.principal.tenant_id in
        let usd = add (usage_of F k m).usd_today r.estimated_usd in
        P m
        → (exceeds F usd b.max_usd_per_day ≡ false
            → exceeds F usd (lookup k b.max_usd_per_tenant_per_day) ≡ false
            → P (add_usage F k r.estimated_usd (total r.usage) m))
        → P (ledger_of (charge b r m))
  unfolding charge pre_check record_spend
  charge_cases P b r m refused charged = ground arith

  charge-IsCapped :
      (b : Budget Real) (r : Request) (m : Ledger)
      → IsCapped b m
      → IsCapped b (ledger_of (charge b r m))
  charge-IsCapped b r m h =
      let k = r.principal.tenant_id in
      let sums = λ (j : String). usage_of-add_usage k j r.estimated_usd (total r.usage) m in
      charge_cases (IsCapped b) b r m h λ day tenant_day. record {
        day = λ j. ground (arith, sums j, h.day j);
        tenant_day = λ j. ground (arith, sums j, h.tenant_day j, eq_iff k j);
      }

  -- However many requests are charged one after the other, no tenant gets above a daily limit.
  pub charges-IsCapped :
      (b : Budget Real) (rs : List Request) (m : Ledger)
      → IsCapped b m
      → IsCapped b (charges b rs m)
  unfolding charges
  charges-IsCapped b [] m h = h
  charges-IsCapped b (r ∷ rs) m h = charges-IsCapped b rs _ (charge-IsCapped b r m h)

  -- two requests in flight at once: both checks come before both records
  pub overlapped : Budget Real → Request → Request → Io Ledger (Unit {0})
  overlapped b r s = do
    pre_check F (tracker b) r.principal r.estimated_usd r.estimated_tokens
    pre_check F (tracker b) s.principal s.estimated_usd s.estimated_tokens
    record_spend F (tracker b) r.principal r.estimated_usd r.usage
    record_spend F (tracker b) s.principal s.estimated_usd s.usage

  overlapped-eq :
      (b : Budget Real) (r s : Request) (m : Ledger)
      → pre_check F (tracker b) r.principal r.estimated_usd r.estimated_tokens m ≡ returns tt m
      → pre_check F (tracker b) s.principal s.estimated_usd s.estimated_tokens m ≡ returns tt m
      → ledger_of (overlapped b r s m)
        ≡ add_usage F s.principal.tenant_id s.estimated_usd
            (total s.usage)
            (add_usage F r.principal.tenant_id r.estimated_usd (total r.usage) m)
  unfolding overlapped record_spend
  overlapped-eq b r s m pr ps = ground arith

  -- Two overlapping requests of one tenant that each pass the check alone, and together are above
  -- its daily limit, leave the tenant above the limit.
  pub overlapped_exceeds :
      (b : Budget Real) (r s : Request) (m : Ledger) (max : Real)
      → s.principal.tenant_id ≡ r.principal.tenant_id
      → b.max_usd_per_day ≡ some max
      → pre_check F (tracker b) r.principal r.estimated_usd r.estimated_tokens m ≡ returns tt m
      → pre_check F (tracker b) s.principal s.estimated_usd s.estimated_tokens m ≡ returns tt m
      → lt max
          (add (add (usage_of F r.principal.tenant_id m).usd_today r.estimated_usd) s.estimated_usd)
        ≡ true
      → ¬ IsCapped b (ledger_of (overlapped b r s m))
  overlapped_exceeds b r s m max same limit pr ps over h =
      let k = r.principal.tenant_id in
      let j = s.principal.tenant_id in
      let m' = add_usage F k r.estimated_usd (total r.usage) m in
      let fits = (rw (overlapped-eq b r s m pr ps) at (h.day k)) in
      ground (
        arith,
        eq_iff j k,
        eq_iff k k,
        eq_iff k j,
        usage_of-add_usage k j r.estimated_usd (total r.usage) m,
        usage_of-add_usage j k s.estimated_usd (total s.usage) m',
      )
