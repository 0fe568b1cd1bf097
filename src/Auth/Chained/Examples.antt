-- ===== src/Auth/Chained/Examples.antt =====
-- The theorem on longer chains at a concrete input.
use tako_ai_core.Common.{ℕ, ◌+◌, ◌≡◌, refl, [], ◌∷◌}
use tako_ai_core.Core.Effects.{returns, raises}
use tako_ai_core.Core.Error.{circuit_open}
use tako_ai_core.Core.Examples.{alice}
use tako_ai_core.Auth.{AuthResolver}
use tako_ai_core.Auth.Chained.{
  ChainedAuthResolver, ShortCircuitPolicy, inherit, resolve, try_children,
}

abbrev accepting : AuthResolver ℕ
accepting = record { resolve = λ token n. returns alice (n + 1) }

abbrev failing : AuthResolver ℕ
failing = record { resolve = λ token n. raises circuit_open (n + 1) }

abbrev one_child : ChainedAuthResolver ℕ
one_child = record {
  children = record { resolver = accepting; policy = inherit } ∷ [];
  short_circuit_policy = ShortCircuitPolicy.none;
}

one_child_accepts : resolve one_child "t" 0 ≡ returns alice 1
unfolding resolve try_children
one_child_accepts = refl
