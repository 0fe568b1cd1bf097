-- ===== src/Prefetch/Examples.antt =====
-- The theorems on addresses, allow lists and name resolution at concrete inputs.
use tako_ai_core.Common.{
  ℕ, ◌+◌, ◌/◌, ◌%◌, ◌↔◌, ◌⊎◌, ◌≡◌, refl, String, List, [], ◌∷◌, true, ◌==◌, ◌&&◌, ◌||◌, any, In,
  All, some, false, strip_star_dot, arith,
}
use tako_ai_core.Core.Effects.{ok, gives, ForeignOutcome, comes}
use tako_ai_core.Prefetch.Addr.{IpAddr, v4, v6, is_blocked_v4, is_blocked_ip}
use tako_ai_core.Prefetch.Addr.Ranges.{
  number, holds, blocked_networks, is_blocked_v4-networks, is_blocked_v6-ranges, zeros,
  multicast_range, unique_local_range, link_local_range,
}
use tako_ai_core.Prefetch.AllowList.{
  contains, from_strings_and_cidrs, add_hosts, add_host, add_cidrs,
}
use tako_ai_core.Prefetch.Fetch.{Web}
use tako_ai_core.Prefetch.Fetch.Examples.{web_of}
use tako_ai_core.Prefetch.Options.{
  UrlPrefetchOpts, Prefetcher, default_opts, default_max_bytes, new_config, into_config, IsGuarded,
  into_config-IsGuarded,
}
use tako_ai_core.Prefetch.AllowList.Examples.{no_networks, host_entries, built_list, list_is_built}
use tako_ai_core.Prefetch.AllowList.Matching.{SomeMatch, contains-SomeMatch}
use tako_ai_core.Prefetch.Resolver.{addresses, refused, permission_denied, resolve}
use tako_ai_core.Prefetch.Resolver.Safety.{Reachable, resolve-verdict}

is_blocked_v4-networks_example :
    is_blocked_v4 172 20 0 1 ≡ any (holds (number 172 20 0 1)) blocked_networks
is_blocked_v4-networks_example =
    is_blocked_v4-networks 172 20 0 1 (omega arith) (omega arith) (omega arith) (omega arith)

is_blocked_v6-ranges_example : is_blocked_ip (v6 0 0 0 0 0 0xffff 0x7f00 1) ≡ (
    zeros 0 0 0 0 0 0xffff 0x7f00 && (1 == 1)
    || zeros 0 0 0 0 0 0xffff 0x7f00 && (1 == 0)
    || multicast_range 0
    || unique_local_range 0
    || link_local_range 0
    || zeros 0 0 0 0 0 0 0
      && (0xffff == 0xffff)
      && is_blocked_ip (v4 (0x7f00 / 256) (0x7f00 % 256) (1 / 256) (1 % 256)))
is_blocked_v6-ranges_example = is_blocked_v6-ranges 0 0 0 0 0 0xffff 0x7f00 1 (omega arith)

contains-SomeMatch_example :
    (contains built_list "eu.cdn.example" ≡ true) ↔ SomeMatch "eu.cdn.example" host_entries
contains-SomeMatch_example =
    contains-SomeMatch "eu.cdn.example" no_networks "bedrock" host_entries [] built_list
      list_is_built

abbrev metadata_service : IpAddr
metadata_service = v4 169 254 169 254

abbrev public_address : IpAddr
public_address = v4 93 184 216 34

abbrev lookup_host : String → ℕ → ForeignOutcome ℕ (List IpAddr)
lookup_host host n = comes (public_address ∷ metadata_service ∷ []) (n + 1)

resolve-verdict_example :
    ((resolve no_networks built_list lookup_host "evil.example" 0
        ≡ addresses (public_address ∷ metadata_service ∷ []) 1)
      × All
          (Reachable no_networks built_list "evil.example")
          (public_address ∷ metadata_service ∷ []))
    ⊎ ((ip : IpAddr) × (resolve no_networks built_list lookup_host "evil.example" 0
          ≡ refused (permission_denied "evil.example" ip) 1)
        × In ip (public_address ∷ metadata_service ∷ [])
        × ¬ Reachable no_networks built_list "evil.example" ip)
resolve-verdict_example =
    resolve-verdict no_networks built_list "evil.example" lookup_host
      (public_address ∷ metadata_service ∷ []) 0 1 refl

abbrev enabled_opts : UrlPrefetchOpts
enabled_opts = record default_opts { enabled = true; allow_hosts = host_entries }

abbrev some_web : Web ℕ
some_web = web_of (record { scheme = "https"; host_str = some "images.example" })

abbrev prefetcher : Prefetcher ℕ IpAddr
prefetcher = record {
  config = record {
    allow_http = false;
    max_bytes = default_max_bytes;
    block_private_ips = true;
    allow_hosts = built_list;
  };
  http = some_web;
}

opts_give :
    into_config "bedrock" no_networks lookup_host (λ timeout resolver. gives some_web) enabled_opts
    ≡ ok (some prefetcher)
unfolding into_config new_config from_strings_and_cidrs add_hosts add_host add_cidrs strip_star_dot
opts_give = refl

into_config-IsGuarded_example :
    IsGuarded "bedrock" no_networks lookup_host
      (λ timeout resolver. gives some_web)
      enabled_opts
      prefetcher
into_config-IsGuarded_example =
    into_config-IsGuarded "bedrock" no_networks lookup_host (λ timeout resolver. gives some_web)
      enabled_opts prefetcher opts_give
