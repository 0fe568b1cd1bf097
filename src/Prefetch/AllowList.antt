-- ===== src/Prefetch/AllowList.antt =====
-- `AllowList`: hosts and networks that may be reached although their addresses are blocked.
pub mod Matching
pub mod Examples
use tako_ai_core.Common.{
  String, Option, none, some, List, [], ◌∷◌, ◌++◌, Bool, true, false, ◌||◌, any, str_eq, ends_with,
  strip_star_dot,
}
use tako_ai_core.Core.Error.{TakoError, Text, lit, invalid}
use tako_ai_core.Core.Effects.{Result, ok, err, Foreign, map_err, and_then}
use tako_ai_core.Prefetch.Addr.{IpAddr}

-- The crate `ipnet`: the type `Net` of networks, its parser, which fails with a message, and the
-- test that an address lies inside.
pub record IpNets (Net : Type 0) : Type 0 where
  pub parse : String → Foreign Net
  pub contains : Net → IpAddr → Bool

pub record AllowList (Net : Type 0) : Type 0 where
  pub exact : List String
  pub suffixes : List String
  pub cidrs : List Net

abbrev pub empty_allow_list : {Net : Type 0} → AllowList Net
empty_allow_list = record { exact = []; suffixes = []; cidrs = [] }

-- `format!(".{suffix}")`
abbrev pub dotted : String → String
dotted s = String.◌∷◌ "." s

module _ {Net : Type 0} where
  -- one round of the loop over the host entries
  unfoldable pub add_host : AllowList Net → String → AllowList Net
  add_host a entry = elim (strip_star_dot entry) [
    | some suffix ↦ record a { suffixes = a.suffixes ++ dotted suffix ∷ [] }
    | none ↦ record a { exact = entry ∷ a.exact }
  ]

  unfoldable pub add_hosts : AllowList Net → List String → AllowList Net
  add_hosts a [] = a
  add_hosts a (entry ∷ rest) = add_hosts (add_host a entry) rest

  -- the loop over the CIDR entries
  unfoldable pub add_cidrs :
      IpNets Net → String → AllowList Net → List String → Result (AllowList Net)
  add_cidrs nets vendor a [] = ok a
  add_cidrs nets vendor a (entry ∷ rest) =
      and_then
        (map_err
          (λ e.
            invalid (lit vendor ∷ lit ": prefetch CIDR `" ∷ lit entry ∷ lit "` parse failed: " ∷ e))
          (nets.parse entry))
        (λ cidr. add_cidrs nets vendor (record a { cidrs = a.cidrs ++ cidr ∷ [] }) rest)

  unfoldable pub from_strings_and_cidrs :
      IpNets Net → String → List String → List String → Result (AllowList Net)
  from_strings_and_cidrs nets vendor host_entries cidr_entries =
      add_cidrs nets vendor (add_hosts empty_allow_list host_entries) cidr_entries

  unfoldable pub contains : AllowList Net → String → Bool
  contains a host = any (str_eq host) a.exact || any (ends_with host) a.suffixes

  unfoldable pub contains_ip : IpNets Net → AllowList Net → IpAddr → Bool
  contains_ip nets a ip = any (λ net. nets.contains net ip) a.cidrs
