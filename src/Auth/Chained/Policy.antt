-- ===== src/Auth/Chained/Policy.antt =====
-- Which errors end a chain, and what the builder methods leave.
use tako_ai_core.Common.{
  ℕ, ◌≡◌, ◌↔◌, refl, inl, inr, Option, some, List, [], ◌∷◌, ◌++◌, true, String, arith,
}
use tako_ai_core.Core.Error.{
  TakoError, Text, transport, rate_limited, circuit_open, budget_exhausted,
}
use tako_ai_core.Core.Effects.{returns, Outcome-cases}
use tako_ai_core.Core.Types.{Principal}
use tako_ai_core.Auth.{AuthResolver}
use tako_ai_core.Auth.Chained.{
  ShortCircuitPolicy, ChildShortCircuitPolicy, ChildEntry, ChainedAuthResolver, is_transport,
  is_infrastructure_error, chain_wide_short_circuit, should_short_circuit, try_children, resolve,
  inherit, always_fall_through, then_with_short_circuit,
}

-- how far a policy goes: not at all, to failures of the network, to all infrastructure
pub data Reach : Type 0 where
  nothing network infrastructure : Reach

-- the policy that counts for a child: its own, or else the chain's
abbrev pub reach : ShortCircuitPolicy → ChildShortCircuitPolicy → Reach
reach ShortCircuitPolicy.none inherit = nothing
reach ShortCircuitPolicy.transport_only inherit = network
reach ShortCircuitPolicy.all_infrastructure inherit = infrastructure
reach chain always_fall_through = nothing
reach chain ChildShortCircuitPolicy.transport_only = network
reach chain ChildShortCircuitPolicy.all_infrastructure = infrastructure

-- the errors that a policy of that reach ends the chain for
pub data Ends : Reach → TakoError → Type 0 where
  network_down : {msg : Text} → Ends network (transport msg)
  infra_down : {msg : Text} → Ends infrastructure (transport msg)
  limited : {retry_after : ℕ} → Ends infrastructure (rate_limited retry_after)
  open_circuit : Ends infrastructure circuit_open
  over_budget : {msg : Text} → Ends infrastructure (budget_exhausted msg)

Ends-network : (e : TakoError) → is_transport e ≡ true → Ends network e
unfolding is_transport
Ends-network (transport _) h = network_down
Ends-network _ h = cc

Ends-infrastructure : (e : TakoError) → is_infrastructure_error e ≡ true → Ends infrastructure e
unfolding is_infrastructure_error
Ends-infrastructure (transport _) h = infra_down
Ends-infrastructure (rate_limited _) h = limited
Ends-infrastructure circuit_open h = open_circuit
Ends-infrastructure (budget_exhausted _) h = over_budget
Ends-infrastructure _ h = cc

network-Ends : {r : Reach} {e : TakoError} → Ends r e → r ≡ network → is_transport e ≡ true
unfolding is_transport
network-Ends network_down h = refl
network-Ends infra_down h = cc
network-Ends limited h = cc
network-Ends open_circuit h = cc
network-Ends over_budget h = cc

infrastructure-Ends :
    {r : Reach} {e : TakoError} → Ends r e → r ≡ infrastructure → is_infrastructure_error e ≡ true
unfolding is_infrastructure_error
infrastructure-Ends network_down h = cc
infrastructure-Ends infra_down h = refl
infrastructure-Ends limited h = refl
infrastructure-Ends open_circuit h = refl
infrastructure-Ends over_budget h = refl

nothing-Ends : {r : Reach} {e : TakoError} → Ends r e → r ≡ nothing → ⊥
nothing-Ends network_down h = cc
nothing-Ends infra_down h = cc
nothing-Ends limited h = cc
nothing-Ends open_circuit h = cc
nothing-Ends over_budget h = cc

-- A child's own policy counts, or the chain's where it inherits; of the errors only network
-- failures, rate limits, open circuits and spent budgets end a chain, and the last three only under
-- the widest policy. Every other error falls through.
pub short_circuit-Ends :
    (chain : ShortCircuitPolicy) (child : ChildShortCircuitPolicy) (e : TakoError)
    → (should_short_circuit chain child e ≡ true) ↔ Ends (reach chain child) e
unfolding should_short_circuit chain_wide_short_circuit
short_circuit-Ends ShortCircuitPolicy.none inherit e = (λ h. cc, λ n. absurd (nothing-Ends n refl))
short_circuit-Ends ShortCircuitPolicy.transport_only inherit e =
    (Ends-network e, λ n. network-Ends n refl)
short_circuit-Ends ShortCircuitPolicy.all_infrastructure inherit e =
    (Ends-infrastructure e, λ n. infrastructure-Ends n refl)
short_circuit-Ends _ always_fall_through e = (λ h. cc, λ n. absurd (nothing-Ends n refl))
short_circuit-Ends _ ChildShortCircuitPolicy.transport_only e =
    (Ends-network e, λ n. network-Ends n refl)
short_circuit-Ends _ ChildShortCircuitPolicy.all_infrastructure e =
    (Ends-infrastructure e, λ n. infrastructure-Ends n refl)

module _ {W : Type 0} where
  try-append-accepts :
      (chain : ShortCircuitPolicy) (token : String) (cs ds : List (ChildEntry W))
      (l : Option TakoError) (w w' : W) (p : Principal)
      → try_children chain token cs l w ≡ returns p w'
      → try_children chain token (cs ++ ds) l w ≡ returns p w'
  unfolding try_children
  try-append-accepts chain token [] ds l w w' p h = cc
  try-append-accepts chain token (c ∷ cs) ds l w w' p h =
      elim (Outcome-cases (c.resolver.resolve token w)) [
        | inl (q, v, e) ↦ ground arith
        | inr (x, v, e) ↦ ground (arith, try-append-accepts chain token cs ds (some x) v w' p)
      ]

  -- Appending a child to a chain never takes an accepted token away, nor changes its principal.
  pub then-keeps_accepted :
      (c : ChainedAuthResolver W) (child : AuthResolver W) (policy : ChildShortCircuitPolicy)
      (token : String) (w w' : W) (p : Principal)
      → resolve c token w ≡ returns p w'
      → resolve (then_with_short_circuit c child policy) token w ≡ returns p w'
  unfolding resolve then_with_short_circuit
  then-keeps_accepted c child policy token w w' p h = ground (
    arith,
    try-append-accepts c.short_circuit_policy token c.children
        (record { resolver = child; policy = policy } ∷ []) Option.none w w' p,
  )
