-- ===== src/Governance/Examples.antt =====
-- The theorems on the freshness anchor at concrete inputs.
use tako_ai_core.Common.{ℕ, ◌≤◌, Bool, true, false, List, [], ◌∷◌}
use tako_ai_core.Governance.Freshness.{loading, Shared, run_schedule}
use tako_ai_core.Governance.Freshness.Order.{IsConsistent, run_schedule-IsConsistent}

-- two calls at once, with sizes 15 and 20
abbrev racing : Shared
racing = record {
  anchor = 10;
  verifies =
      record { tree_size = 15; phase = loading } ∷ record { tree_size = 20; phase = loading } ∷ [];
  log = [];
}

-- the smaller one loads first and exchanges last
abbrev late : List (ℕ × Bool)
late = (0, false) ∷ (1, false) ∷ (1, true) ∷ (1, false) ∷ (0, false) ∷ (0, false) ∷ []

run_schedule-IsConsistent_example :
    (10 ≤ (run_schedule late racing).anchor) × IsConsistent (run_schedule late racing)
run_schedule-IsConsistent_example = run_schedule-IsConsistent late racing (tt, (tt, (tt, tt)))
