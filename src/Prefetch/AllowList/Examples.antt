-- ===== src/Prefetch/AllowList/Examples.antt =====
-- A list that is built from two entries.
use tako_ai_core.Common.{◌≡◌, refl, String, List, [], ◌∷◌, false, strip_star_dot}
use tako_ai_core.Core.Error.{lit}
use tako_ai_core.Core.Effects.{ok, breaks}
use tako_ai_core.Prefetch.Addr.{IpAddr}
use tako_ai_core.Prefetch.AllowList.{
  IpNets, AllowList, from_strings_and_cidrs, add_host, add_hosts, add_cidrs,
}

-- networks of which none can be written
abbrev pub no_networks : IpNets IpAddr
no_networks = record { parse = λ entry. breaks (lit "no network" ∷ []); contains = λ net ip. false }

abbrev pub host_entries : List String
host_entries = "images.example" ∷ "*.cdn.example" ∷ []

abbrev pub built_list : AllowList IpAddr
built_list = record { exact = "images.example" ∷ []; suffixes = ".cdn.example" ∷ []; cidrs = [] }

pub list_is_built : from_strings_and_cidrs no_networks "bedrock" host_entries [] ≡ ok built_list
unfolding from_strings_and_cidrs add_hosts add_host add_cidrs strip_star_dot
list_is_built = refl
