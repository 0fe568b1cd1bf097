-- ===== src/Prefetch/Addr.antt =====
-- Which addresses the guard blocks: `is_blocked_ip`, over the predicates of `std::net`.
pub mod Ranges
use Prim.Native.Nat.{bit_and}
use tako_ai_core.Common.{
  ℕ, ◌+◌, ◌*◌, ◌/◌, ◌%◌, Option, none, some, Bool, true, false, ◌&&◌, ◌||◌, leb, ◌==◌,
  if◌then◌else◌,
}

pub data IpAddr : Type 0 where
  -- four octets
  v4 : ℕ → ℕ → ℕ → ℕ → IpAddr
  -- eight segments of 16 bits
  v6 : ℕ → ℕ → ℕ → ℕ → ℕ → ℕ → ℕ → ℕ → IpAddr

is_loopback_v4 : ℕ → Bool
is_loopback_v4 a = a == 127

is_private_v4 : ℕ → ℕ → Bool
is_private_v4 a b = a == 10 || a == 172 && leb 16 b && leb b 31 || a == 192 && b == 168

is_link_local_v4 : ℕ → ℕ → Bool
is_link_local_v4 a b = a == 169 && b == 254

is_unspecified_v4 : ℕ → ℕ → ℕ → ℕ → Bool
is_unspecified_v4 a b c d = a == 0 && b == 0 && c == 0 && d == 0

is_broadcast_v4 : ℕ → ℕ → ℕ → ℕ → Bool
is_broadcast_v4 a b c d = a == 255 && b == 255 && c == 255 && d == 255

-- the `IpAddr::V4` arm
unfoldable pub is_blocked_v4 : ℕ → ℕ → ℕ → ℕ → Bool
unfolding is_loopback_v4 is_private_v4 is_link_local_v4 is_unspecified_v4 is_broadcast_v4
is_blocked_v4 a b c d =
    is_loopback_v4 a
    || is_private_v4 a b
    || is_link_local_v4 a b
    || is_unspecified_v4 a b c d
    || is_broadcast_v4 a b c d
    || leb 224 a

is_loopback_v6 : ℕ → ℕ → ℕ → ℕ → ℕ → ℕ → ℕ → ℕ → Bool
is_loopback_v6 a b c d e f g h =
    a == 0 && b == 0 && c == 0 && d == 0 && e == 0 && f == 0 && g == 0 && h == 1

is_unspecified_v6 : ℕ → ℕ → ℕ → ℕ → ℕ → ℕ → ℕ → ℕ → Bool
is_unspecified_v6 a b c d e f g h =
    a == 0 && b == 0 && c == 0 && d == 0 && e == 0 && f == 0 && g == 0 && h == 0

is_multicast_v6 : ℕ → Bool
is_multicast_v6 a = bit_and a 0xff00 == 0xff00

is_unique_local_v6 : ℕ → Bool
is_unique_local_v6 a = bit_and a 0xfe00 == 0xfc00

is_unicast_link_local_v6 : ℕ → Bool
is_unicast_link_local_v6 a = bit_and a 0xffc0 == 0xfe80

-- `to_ipv4_mapped`, for ::ffff:g:h
pub is_ipv4_mapped : ℕ → ℕ → ℕ → ℕ → ℕ → ℕ → Bool
is_ipv4_mapped a b c d e f = a == 0 && b == 0 && c == 0 && d == 0 && e == 0 && f == 0xffff

-- The embedded address of a mapped one is an IPv4 address, for which the function recurs once.
unfoldable pub is_blocked_ip : IpAddr → Bool
unfolding is_loopback_v6 is_unspecified_v6 is_multicast_v6 is_unique_local_v6
    is_unicast_link_local_v6 is_ipv4_mapped
is_blocked_ip (v4 a b c d) = is_blocked_v4 a b c d
is_blocked_ip (v6 a b c d e f g h) =
    is_loopback_v6 a b c d e f g h
    || is_unspecified_v6 a b c d e f g h
    || is_multicast_v6 a
    || is_unique_local_v6 a
    || is_unicast_link_local_v6 a
    || is_ipv4_mapped a b c d e f && is_blocked_v4 (g / 256) (g % 256) (h / 256) (h % 256)
