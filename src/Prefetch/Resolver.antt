-- ===== src/Prefetch/Resolver.antt =====
-- `BlocklistResolver`: a name is resolved only if every address it has may be reached.
pub mod Safety
use tako_ai_core.Common.{String, List, [], ◌∷◌, Bool, true, false, not, ◌&&◌, if◌then◌else◌}
use tako_ai_core.Core.Error.{Text, lit}
use tako_ai_core.Core.Effects.{ForeignOutcome, comes, breaks_off}
use tako_ai_core.Prefetch.Addr.{IpAddr, is_blocked_ip}
use tako_ai_core.Prefetch.AllowList.{IpNets, AllowList, contains, contains_ip}

-- The boxed errors of `resolve`: that of the lookup, or `PermissionDenied` for a host and the
-- address that is blocked.
pub data ResolveError : Type 0 where
  lookup_failed : Text → ResolveError
  permission_denied : String → IpAddr → ResolveError

pub data Resolved (W : Type 0) : Type 0 where
  addresses : List IpAddr → W → Resolved W
  refused : ResolveError → W → Resolved W

module _ {Net : Type 0} (nets : IpNets Net) (allow_hosts : AllowList Net) where
  -- the test in the loop, for a host that is allowed by name or not
  unfoldable pub may_reach : Bool → IpAddr → Bool
  may_reach host_allowed ip =
      not (not host_allowed && not (contains_ip nets allow_hosts ip) && is_blocked_ip ip)

module _ {W Net : Type 0} (nets : IpNets Net) (allow_hosts : AllowList Net) where
  -- the loop over the addresses, with all of them to return
  pub check_addrs : String → Bool → List IpAddr → List IpAddr → W → Resolved W
  check_addrs host host_allowed all [] w = addresses all w
  check_addrs host host_allowed all (ip ∷ rest) w =
      let next = check_addrs host host_allowed all rest w in
      if may_reach nets allow_hosts host_allowed ip
      then next
      else refused (permission_denied host ip) w

  -- `lookup_host` is the system's
  pub resolve : (String → W → ForeignOutcome W (List IpAddr)) → String → W → Resolved W
  resolve lookup_host host w = elim (lookup_host host w) [
    | comes addrs w' ↦ check_addrs host (contains allow_hosts host) addrs addrs w'
    | breaks_off e w' ↦ refused (lookup_failed e) w'
  ]
