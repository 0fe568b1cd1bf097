-- ===== src/Prefetch/Options.antt =====
-- crates/tako-providers/bedrock/src/url_prefetch.rs: the options of a provider's builder and the
-- configuration made from them, with the HTTP client that resolves names through the blocklist.
use tako_ai_core.Common.{
  ℕ, ◌*◌, ◌^◌, ◌≡◌, refl, sym, inl, inr, ◌⊎◌, Bool, true, false, Bool-cases, if◌then◌else◌, String,
  Option, none, some, List, [], ◌∷◌, arith,
}
use tako_ai_core.Core.Error.{lit, invalid}
use tako_ai_core.Core.Effects.{
  Result, ok, Result-cases, Foreign, gives, Foreign-cases, ForeignOutcome, map_err, and_then,
}
use tako_ai_core.Prefetch.Addr.{IpAddr}
use tako_ai_core.Prefetch.AllowList.{IpNets, AllowList, from_strings_and_cidrs}
use tako_ai_core.Prefetch.Resolver.{Resolved, resolve}
use tako_ai_core.Prefetch.Fetch.{UrlPrefetchConfig, Web}

-- `timeout` is in nanoseconds.
pub record UrlPrefetchOpts : Type 0 where
  pub enabled : Bool
  pub allow_http : Bool
  pub timeout : Option ℕ
  pub max_bytes : Option ℕ
  pub block_private_ips : Bool
  pub allow_hosts : List String
  pub allow_cidrs : List String

abbrev pub default_opts : UrlPrefetchOpts
default_opts = record {
  enabled = false;
  allow_http = false;
  timeout = none;
  max_bytes = none;
  block_private_ips = true;
  allow_hosts = [];
  allow_cidrs = [];
}

abbrev pub default_timeout : ℕ
default_timeout = 10 * 10 ^ 9

abbrev pub default_max_bytes : ℕ
default_max_bytes = 10 * 1024 * 1024

abbrev unwrap_or : Option ℕ → ℕ → ℕ
unwrap_or none n = n
unwrap_or (some m) n = m

defaulted :
    (given : Option ℕ) (standard : ℕ)
    → ((given ≡ none) × (unwrap_or given standard ≡ standard))
      ⊎ (given ≡ some (unwrap_or given standard))
defaulted none standard = inl (refl, refl)
defaulted (some n) standard = inr refl

-- `reqwest::Client::builder()`: a client with a timeout and, if one is set, a resolver of its own
abbrev pub ClientBuilder : Type 0 → Type 0
ClientBuilder W = ℕ → Option (String → W → Resolved W) → Foreign (Web W)

-- a configuration with the client in it
pub record Prefetcher (W Net : Type 0) : Type 0 where
  pub config : UrlPrefetchConfig Net
  pub http : Web W

module _ {W Net : Type 0} (vendor : String) (nets : IpNets Net)
    (lookup_host : String → W → ForeignOutcome W (List IpAddr))
    (build_client : ClientBuilder W) where
  -- the resolver that the client is given
  abbrev pub resolver_of : Bool → AllowList Net → Option (String → W → Resolved W)
  resolver_of block_private_ips allow_hosts =
      if block_private_ips then some (resolve nets allow_hosts lookup_host) else none

  -- `UrlPrefetchConfig::new`
  unfoldable pub new_config : Bool → ℕ → ℕ → Bool → AllowList Net → Result (Prefetcher W Net)
  new_config allow_http timeout max_bytes block_private_ips allow_hosts =
      and_then
        (map_err (λ e. invalid (lit vendor ∷ lit ": failed to build prefetch client: " ∷ e))
          (build_client timeout (resolver_of block_private_ips allow_hosts)))
        λ http. ok (record {
          config = record {
            allow_http = allow_http;
            max_bytes = max_bytes;
            block_private_ips = block_private_ips;
            allow_hosts = allow_hosts;
          };
          http = http;
        })

  unfoldable pub into_config : UrlPrefetchOpts → Result (Option (Prefetcher W Net))
  unfolding new_config
  into_config opts =
      if opts.enabled
      then (and_then (from_strings_and_cidrs nets vendor opts.allow_hosts opts.allow_cidrs)
          λ allow_hosts.
            and_then
              (new_config opts.allow_http (unwrap_or opts.timeout default_timeout)
                (unwrap_or opts.max_bytes default_max_bytes) opts.block_private_ips allow_hosts)
              λ cfg. ok (some cfg))
      else ok none

  -- What stands behind a configuration: the options are enabled, their entries are its allow list, and
  -- its client resolves names by the blocklist under that list unless private addresses are allowed.
  pub record IsGuarded (opts : UrlPrefetchOpts) (p : Prefetcher W Net) : Type 0 where
    pub enabled : opts.enabled ≡ true
    pub listed :
        from_strings_and_cidrs nets vendor opts.allow_hosts opts.allow_cidrs
        ≡ ok p.config.allow_hosts
    pub schemes : p.config.allow_http ≡ opts.allow_http
    pub literals : p.config.block_private_ips ≡ opts.block_private_ips
    pub limit :
        ((opts.max_bytes ≡ none) × (p.config.max_bytes ≡ 10485760))
        ⊎ (opts.max_bytes ≡ some p.config.max_bytes)
    pub timeout : ℕ
    pub in_time : ((opts.timeout ≡ none) × (timeout ≡ 10000000000)) ⊎ (opts.timeout ≡ some timeout)
    pub names :
        ((opts.block_private_ips ≡ true)
          × (build_client timeout (some (resolve nets p.config.allow_hosts lookup_host))
              ≡ gives p.http))
        ⊎ ((opts.block_private_ips ≡ false) × (build_client timeout none ≡ gives p.http))

  client :
      (block : Bool) (timeout : ℕ) (list : AllowList Net) (http : Web W)
      → build_client timeout (resolver_of block list) ≡ gives http
      → ((block ≡ true)
          × (build_client timeout (some (resolve nets list lookup_host)) ≡ gives http))
        ⊎ ((block ≡ false) × (build_client timeout none ≡ gives http))
  client true timeout list http h = inl (refl, h)
  client false timeout list http h = inr (refl, h)

  -- Every configuration that the options give has their entries as its allow list, their flags, their
  -- size limit or else 10 MiB, and a client with their timeout or else ten seconds, which resolves
  -- names through the blocklist under that allow list exactly if private addresses are blocked.
  pub into_config-IsGuarded :
      (opts : UrlPrefetchOpts) (p : Prefetcher W Net)
      → into_config opts ≡ ok (some p)
      → IsGuarded opts p
  unfolding into_config new_config
  into_config-IsGuarded opts p h = elim (Bool-cases opts.enabled) [
    | inr off ↦ absurd (ground arith)
    | inl on ↦
        elim (Result-cases (from_strings_and_cidrs nets vendor opts.allow_hosts opts.allow_cidrs)) [
          | inr (e, x) ↦ absurd (ground arith)
          | inl (list, x) ↦
              elim (Foreign-cases (
                build_client (unwrap_or opts.timeout default_timeout)
                  (resolver_of opts.block_private_ips list))) [
                    | inr (m, y) ↦ absurd (ground arith)
                    | inl (http, y) ↦
                        let made : record {
                          config = record {
                            allow_http = opts.allow_http;
                            max_bytes = unwrap_or opts.max_bytes default_max_bytes;
                            block_private_ips = opts.block_private_ips;
                            allow_hosts = list;
                          };
                          http = http;
                        }
                            ≡ p =
                          ground arith in
                        rw (sym made) record {
                          enabled = on;
                          listed = x;
                          schemes = refl;
                          literals = refl;
                          limit = defaulted opts.max_bytes default_max_bytes;
                          timeout = unwrap_or opts.timeout default_timeout;
                          in_time = defaulted opts.timeout default_timeout;
                          names =
                              client opts.block_private_ips (unwrap_or opts.timeout default_timeout)
                                list http y;
                        }
                  ]
        ]
  ]
