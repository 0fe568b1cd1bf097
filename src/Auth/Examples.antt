-- ===== src/Auth/Examples.antt =====
-- The theorems on authentication at concrete inputs.
use tako_ai_core.Common.{ℕ, ◌+◌, ◌↔◌, ◌≡◌, refl, Option, [], ◌∷◌, true}
use tako_ai_core.Core.Error.{TakoError, transport, lit}
use tako_ai_core.Core.Effects.{returns, raises}
use tako_ai_core.Core.Examples.{alice}
use tako_ai_core.Auth.Static.{StaticTokens}
use tako_ai_core.Auth.Chained.{
  ChainedAuthResolver, ChildEntry, ShortCircuitPolicy, inherit, always_fall_through, resolve,
  should_short_circuit,
}
use tako_ai_core.Auth.Chained.Order.{Resolves, resolve-Resolves}
use tako_ai_core.Auth.Chained.Policy.{Ends, reach, short_circuit-Ends}

abbrev one_token : StaticTokens
one_token = record { table = ("t", alice) ∷ [] }

abbrev no_network : TakoError
no_network = transport (lit "no route" ∷ [])

abbrev unreachable_server : ChildEntry ℕ
unreachable_server = record {
  resolver = record { resolve = λ token n. raises no_network (n + 1) };
  policy = always_fall_through;
}

abbrev server : ChildEntry ℕ
server = record {
  resolver = record { resolve = λ token n. returns alice (n + 1) };
  policy = inherit;
}

abbrev two_servers : ChainedAuthResolver ℕ
two_servers = record {
  children = unreachable_server ∷ server ∷ [];
  short_circuit_policy = ShortCircuitPolicy.transport_only;
}

resolve-Resolves_example :
    Resolves ShortCircuitPolicy.transport_only "t" Option.none
      (unreachable_server ∷ server ∷ [])
      0
      (returns alice 2)
    ↔ (resolve two_servers "t" 0 ≡ returns alice 2)
resolve-Resolves_example =
    resolve-Resolves two_servers "t" unreachable_server (server ∷ []) 0 (returns alice 2) refl

short_circuit-Ends_example :
    (should_short_circuit ShortCircuitPolicy.transport_only inherit no_network ≡ true)
    ↔ Ends (reach ShortCircuitPolicy.transport_only inherit) no_network
short_circuit-Ends_example = short_circuit-Ends ShortCircuitPolicy.transport_only inherit no_network
