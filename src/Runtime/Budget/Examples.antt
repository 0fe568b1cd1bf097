-- ===== src/Runtime/Budget/Examples.antt =====
-- The theorems on budgets at concrete inputs.
use tako_ai_core.Common.{ℕ, ◌+◌, ◌↔◌, ◌≡◌, refl, some, [], ◌∷◌, true, lookup, ltb}
use tako_ai_core.Core.Error.{TakoError, Text, budget_exhausted}
use tako_ai_core.Core.Effects.{Outcome, returns, raises}
use tako_ai_core.Core.Types.{Usage, Budget}
use tako_ai_core.Core.Examples.{naturals, alice}
use tako_ai_core.Runtime.Budget.{TenantUsage, pre_check, usage_of, check_request, check_day}
use tako_ai_core.Runtime.Budget.Limits.{Fits, pre_check-Fits}
use tako_ai_core.Runtime.Budget.Spend.{
  Request, Ledger, tracker, charges, overlapped, ledger_of, IsCapped, charges-IsCapped,
  overlapped_exceeds,
}

abbrev caps : Budget ℕ
caps = record {
  max_usd_per_request = some 6;
  max_usd_per_day = some 10;
  max_tokens_per_request = some 1000;
  max_usd_per_tenant_per_day = [];
}

abbrev nothing_spent : TenantUsage ℕ
nothing_spent = record { usd_today = 0; tokens_today = 0 }

abbrev few_tokens : Usage
few_tokens = record { input_tokens = 3; output_tokens = 4 }

abbrev six_dollars : Request naturals
six_dollars = record {
  principal = alice;
  estimated_usd = 6;
  estimated_tokens = 7;
  usage = few_tokens;
}

usage_is_zero : (tracker naturals caps).backend.current_usage "acme" [] ≡ returns nothing_spent []
unfolding usage_of lookup
usage_is_zero = refl

pre_check-Fits_example :
    (pre_check naturals (tracker naturals caps) alice 6 7 [] ≡ returns tt [])
    ↔ Fits naturals caps "acme" 0 6 7
pre_check-Fits_example =
    pre_check-Fits naturals (tracker naturals caps) alice 6 7 nothing_spent [] [] usage_is_zero

abbrev too_dear : TakoError → Outcome (Ledger naturals) (Unit {0})
too_dear e = raises e []

refused_msg :
    (msg : Text) × (pre_check naturals (tracker naturals caps) alice 9 7 []
      ≡ too_dear (budget_exhausted msg))
unfolding pre_check check_request
refused_msg = (_, refl)

empty-IsCapped : IsCapped naturals caps []
unfolding usage_of lookup
empty-IsCapped = record { day = λ k. refl; tenant_day = λ k. refl }

charges-IsCapped_example :
    IsCapped naturals caps (charges naturals caps (six_dollars ∷ six_dollars ∷ []) [])
charges-IsCapped_example =
    charges-IsCapped naturals caps (six_dollars ∷ six_dollars ∷ []) [] empty-IsCapped

six_passes : pre_check naturals (tracker naturals caps) alice 6 7 [] ≡ returns tt []
unfolding pre_check check_request check_day usage_of lookup
six_passes = refl

above : ltb 10 ((usage_of naturals "acme" []).usd_today + 6 + 6) ≡ true
unfolding usage_of lookup
above = refl

overlapped_exceeds_example :
    ¬ IsCapped naturals caps
      (ledger_of naturals (overlapped naturals caps six_dollars six_dollars []))
overlapped_exceeds_example =
    overlapped_exceeds naturals caps six_dollars six_dollars [] 10 refl refl six_passes six_passes
      above
