-- ===== src/Prefetch/Resolver/Safety.antt =====
-- What a resolution may return.
use tako_ai_core.Common.{
  String, ◌≡◌, ◌⊎◌, inl, inr, refl, ◌∙◌, List, [], ◌∷◌, true, false, Bool-cases, All, In, here,
  there, arith,
}
use tako_ai_core.Core.Effects.{ForeignOutcome, comes}
use tako_ai_core.Prefetch.Addr.{IpAddr, is_blocked_ip}
use tako_ai_core.Prefetch.AllowList.{IpNets, AllowList, contains, contains_ip}
use tako_ai_core.Prefetch.Resolver.{
  Resolved, addresses, refused, permission_denied, may_reach, check_addrs, resolve,
}

module _ {Net : Type 0} (nets : IpNets Net) (allow : AllowList Net) where
  -- An address that a connection to the host may use: the host is allowed by name, the address lies
  -- in an allowed network, or it is not blocked.
  abbrev pub Reachable : String → IpAddr → Type 0
  Reachable host ip =
      (contains allow host ≡ true) ⊎ (contains_ip nets allow ip ≡ true) ⊎ (is_blocked_ip ip ≡ false)

  may_reach-Reachable :
      (host : String) (ip : IpAddr)
      → may_reach nets allow (contains allow host) ip ≡ true
      → Reachable host ip
  unfolding may_reach
  may_reach-Reachable host ip h = ground arith

  Reachable-may_reach :
      (host : String) (ip : IpAddr)
      → Reachable host ip
      → may_reach nets allow (contains allow host) ip ≡ true
  unfolding may_reach
  Reachable-may_reach host ip h = ground arith

module _ {W Net : Type 0} (nets : IpNets Net) (allow : AllowList Net) (host : String) where
  abbrev checks : List IpAddr → List IpAddr → W → Resolved W
  checks = check_addrs nets allow host (contains allow host)

  check_addrs-next :
      (all rest : List IpAddr) (ip : IpAddr) (w : W)
      → may_reach nets allow (contains allow host) ip ≡ true
      → checks all (ip ∷ rest) w ≡ checks all rest w
  unfolding check_addrs
  check_addrs-next all rest ip w h = ground arith

  check_addrs-stop :
      (all rest : List IpAddr) (ip : IpAddr) (w : W)
      → may_reach nets allow (contains allow host) ip ≡ false
      → checks all (ip ∷ rest) w ≡ refused (permission_denied host ip) w
  unfolding check_addrs
  check_addrs-stop all rest ip w h = ground arith

  -- The loop passes all addresses on, or names the first that may not be reached.
  check_addrs-verdict :
      (all ips : List IpAddr) (w : W)
      → ((checks all ips w ≡ addresses all w) × All (Reachable nets allow host) ips)
        ⊎ ((ip : IpAddr) × (checks all ips w ≡ refused (permission_denied host ip) w)
            × In ip ips
            × ¬ Reachable nets allow host ip)
  unfolding check_addrs
  check_addrs-verdict all [] w = inl (refl, tt)
  check_addrs-verdict all (ip ∷ rest) w =
      elim (Bool-cases (may_reach nets allow (contains allow host) ip)) [
        | inr h ↦ inr (
          ip,
          check_addrs-stop all rest ip w h,
          here,
          λ r. cc (Reachable-may_reach nets allow host ip r),
        )
        | inl h ↦ elim (check_addrs-verdict all rest w) [
          | inl (e, a) ↦
              inl (
                check_addrs-next all rest ip w h ∙ e,
                (may_reach-Reachable nets allow host ip h, a),
              )
          | inr (x, e, i, n) ↦ inr (x, check_addrs-next all rest ip w h ∙ e, there i, n)
        ]
      ]

  module _ (lookup_host : String → W → ForeignOutcome W (List IpAddr)) where
    -- If the lookup returns `addrs`, the resolution returns all of them exactly if a connection to the
    -- host may use every one; or else it fails, naming one of them that it may not use.
    pub resolve-verdict :
        (addrs : List IpAddr) (w w' : W)
        → lookup_host host w ≡ comes addrs w'
        → ((resolve nets allow lookup_host host w ≡ addresses addrs w')
            × All (Reachable nets allow host) addrs)
          ⊎ ((ip : IpAddr) × (resolve nets allow lookup_host host w
                ≡ refused (permission_denied host ip) w')
              × In ip addrs
              × ¬ Reachable nets allow host ip)
    unfolding resolve
    resolve-verdict addrs w w' h = rw (h, resolve) (check_addrs-verdict addrs addrs w')
