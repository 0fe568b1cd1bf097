-- ===== src/Auth/Chained.antt =====
-- crates/tako-compat/src/auth/chained.rs: resolvers tried in order, with a policy that says which
-- errors end the chain.
pub mod Order
pub mod Policy
pub mod Examples
use tako_ai_core.Common.{
  ℕ, String, Option, some, List, [], ◌∷◌, ◌++◌, Bool, true, false, not, length, if◌then◌else◌,
}
use tako_ai_core.Core.Error.{
  TakoError, lit, transport, invalid, rate_limited, circuit_open, budget_exhausted,
}
use tako_ai_core.Core.Effects.{Io, Outcome, returns, raises}
use tako_ai_core.Core.Types.{Principal}
use tako_ai_core.Auth.{AuthResolver}

pub data ShortCircuitPolicy : Type 0 where
  none transport_only all_infrastructure : ShortCircuitPolicy

pub data ChildShortCircuitPolicy : Type 0 where
  inherit always_fall_through transport_only all_infrastructure : ChildShortCircuitPolicy

pub record ChildEntry (W : Type 0) : Type 0 where
  pub resolver : AuthResolver W
  pub policy : ChildShortCircuitPolicy

pub record ChainedAuthResolver (W : Type 0) : Type 0 where
  pub children : List (ChildEntry W)
  pub short_circuit_policy : ShortCircuitPolicy

-- `matches!(e, TakoError::Transport(_))`
unfoldable pub is_transport : TakoError → Bool
is_transport (transport _) = true
is_transport _ = false

unfoldable pub is_infrastructure_error : TakoError → Bool
is_infrastructure_error (transport _) = true
is_infrastructure_error (rate_limited _) = true
is_infrastructure_error circuit_open = true
is_infrastructure_error (budget_exhausted _) = true
is_infrastructure_error _ = false

pub chain_wide_short_circuit : ShortCircuitPolicy → TakoError → Bool
chain_wide_short_circuit none e = false
chain_wide_short_circuit ShortCircuitPolicy.transport_only e = is_transport e
chain_wide_short_circuit ShortCircuitPolicy.all_infrastructure e = is_infrastructure_error e

-- the `match entry.policy` of `resolve`
pub should_short_circuit : ShortCircuitPolicy → ChildShortCircuitPolicy → TakoError → Bool
should_short_circuit chain inherit e = chain_wide_short_circuit chain e
should_short_circuit chain always_fall_through e = false
should_short_circuit chain ChildShortCircuitPolicy.transport_only e = is_transport e
should_short_circuit chain ChildShortCircuitPolicy.all_infrastructure e = is_infrastructure_error e

abbrev pub no_resolvers : TakoError
no_resolvers = invalid (lit "chained auth: no resolvers configured" ∷ [])

abbrev pub unreachable : TakoError
unreachable = invalid (lit "chained auth: unreachable empty-error path" ∷ [])

abbrev unwrap_or : Option TakoError → TakoError → TakoError
unwrap_or Option.none e = e
unwrap_or (some e') e = e'

module _ {W : Type 0} where
  pub new : ChainedAuthResolver W
  new = record { children = []; short_circuit_policy = none }

  pub then_with_short_circuit :
      ChainedAuthResolver W → AuthResolver W → ChildShortCircuitPolicy → ChainedAuthResolver W
  then_with_short_circuit c child policy = record c {
    children = c.children ++ record { resolver = child; policy = policy } ∷ [];
  }

  -- `then` of the source
  pub then_child : ChainedAuthResolver W → AuthResolver W → ChainedAuthResolver W
  then_child c child = record c {
    children = c.children ++ record { resolver = child; policy = inherit } ∷ [];
  }

  pub with_short_circuit_on_transport_error : ChainedAuthResolver W → ChainedAuthResolver W
  with_short_circuit_on_transport_error c = record c {
    short_circuit_policy = ShortCircuitPolicy.transport_only;
  }

  pub with_short_circuit_on_infrastructure_errors : ChainedAuthResolver W → ChainedAuthResolver W
  with_short_circuit_on_infrastructure_errors c = record c {
    short_circuit_policy = ShortCircuitPolicy.all_infrastructure;
  }

  pub len : ChainedAuthResolver W → ℕ
  len c = length c.children

  pub short_circuits_on_transport_error : ChainedAuthResolver W → Bool
  short_circuits_on_transport_error c = elim c.short_circuit_policy [ none ↦ false | _ ↦ true ]

  pub short_circuits_on_infrastructure_errors : ChainedAuthResolver W → Bool
  short_circuits_on_infrastructure_errors c = elim c.short_circuit_policy [
    | ShortCircuitPolicy.all_infrastructure ↦ true
    | _ ↦ false
  ]

  -- the `for` loop of `resolve`
  pub try_children :
      ShortCircuitPolicy → String → List (ChildEntry W) → Option TakoError → Io W Principal
  try_children chain token [] last_err w = raises (unwrap_or last_err unreachable) w
  try_children chain token (entry ∷ rest) last_err w = elim (entry.resolver.resolve token w) [
    | returns p w' ↦ returns p w'
    | raises e w' ↦
        let next = try_children chain token rest (some e) w' in
        if should_short_circuit chain entry.policy e then raises e w' else next
  ]

  pub resolve : ChainedAuthResolver W → String → Io W Principal
  unfolding try_children
  resolve c token w = elim c.children [
    | [] ↦ raises no_resolvers w
    | _ ∷ _ ↦ try_children c.short_circuit_policy token c.children Option.none w
  ]
