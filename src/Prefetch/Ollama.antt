-- ===== src/Prefetch/Ollama.antt =====
-- crates/tako-providers/ollama/src/url_prefetch.rs: the same code as Bedrock's under its own name,
-- which stands in the messages; its base64 encoder is the standard one of the crate `base64`, and so
-- is a part of the `Web` that it is given.
use tako_ai_core.Common.{ℕ, Bool, String, Option, List}
use tako_ai_core.Core.Effects.{Io, Result, ForeignOutcome}
use tako_ai_core.Core.Types.{ChatRequest}
use tako_ai_core.Prefetch.Addr.{IpAddr, is_blocked_ip}
use tako_ai_core.Prefetch.AllowList.{
  IpNets, AllowList, from_strings_and_cidrs, contains, contains_ip,
}
use tako_ai_core.Prefetch.Resolver.{Resolved, resolve}
use tako_ai_core.Prefetch.Fetch.{
  UrlPrefetchConfig, Web, is_supported_mime, fetch_one, Walk, rewrite,
}
use tako_ai_core.Prefetch.Options.{
  UrlPrefetchOpts, Prefetcher, ClientBuilder, default_opts, new_config, into_config,
}

abbrev pub is_supported_ollama_mime : String → Bool
is_supported_ollama_mime = is_supported_mime

abbrev pub ollama_is_blocked_ip : IpAddr → Bool
ollama_is_blocked_ip = is_blocked_ip

abbrev pub ollama_default_opts : UrlPrefetchOpts
ollama_default_opts = default_opts

module _ {Net : Type 0} (nets : IpNets Net) where
  abbrev pub ollama_allow_list : List String → List String → Result (AllowList Net)
  ollama_allow_list = from_strings_and_cidrs nets "ollama"

  abbrev pub ollama_contains_ip : AllowList Net → IpAddr → Bool
  ollama_contains_ip = contains_ip nets

abbrev pub ollama_contains : {Net : Type 0} → AllowList Net → String → Bool
ollama_contains a host = contains a host

module _ {W Net : Type 0} (nets : IpNets Net) where
  abbrev pub ollama_resolve :
      AllowList Net → (String → W → ForeignOutcome W (List IpAddr)) → String → W → Resolved W
  ollama_resolve = resolve nets

  abbrev pub ollama_fetch_one : Web W → UrlPrefetchConfig Net → String → Io W (String × List ℕ)
  ollama_fetch_one web = fetch_one web nets "ollama"

  abbrev pub ollama_rewrite :
      {R : Type 0} → Web W → UrlPrefetchConfig Net → ChatRequest R → W → Walk W (ChatRequest R)
  ollama_rewrite web cfg req w = rewrite web nets "ollama" cfg req w

  abbrev pub ollama_new :
      (String → W → ForeignOutcome W (List IpAddr))
      → ClientBuilder W
      → Bool
      → ℕ
      → ℕ
      → Bool
      → AllowList Net
      → Result (Prefetcher W Net)
  ollama_new = new_config "ollama" nets

  abbrev pub ollama_into_config :
      (String → W → ForeignOutcome W (List IpAddr))
      → ClientBuilder W
      → UrlPrefetchOpts
      → Result (Option (Prefetcher W Net))
  ollama_into_config = into_config "ollama" nets
