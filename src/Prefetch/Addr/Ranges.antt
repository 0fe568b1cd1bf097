-- ===== src/Prefetch/Addr/Ranges.antt =====
-- The blocked addresses as a table of networks.
use Prim.Native.Nat.{bit_and}
use mathlib.Core.Path.{ap₂}
use tako_ai_core.Common.{
  ℕ, ◌+◌, ◌*◌, ◌/◌, ◌%◌, ◌^◌, ◌<◌, ◌≡◌, refl, sym, ap, ◌∙◌, Bool, true, false, ◌&&◌, ◌||◌, not, leb,
  ltb, ◌==◌, List, [], ◌∷◌, any, holds_up_to, holds_up_to-at, arith,
}
use tako_ai_core.Prefetch.Addr.{v4, v6, is_blocked_v4, is_blocked_ip}

-- an IPv4 address as a number
abbrev pub number : ℕ → ℕ → ℕ → ℕ → ℕ
number a b c d = ((a * 256 + b) * 256 + c) * 256 + d

-- A network in CIDR notation: its address as a number, and how many low bits are free.
pub record Network : Type 0 where
  pub base : ℕ
  pub free : ℕ

abbrev pub holds : ℕ → Network → Bool
holds n net = n / 2 ^ net.free == net.base / 2 ^ net.free

abbrev pub blocked_networks : List Network
blocked_networks =
    record { base = number 0 0 0 0; free = 0 }
    ∷ record { base = number 10 0 0 0; free = 24 }
    ∷ record { base = number 127 0 0 0; free = 24 }
    ∷ record { base = number 169 254 0 0; free = 16 }
    ∷ record { base = number 172 16 0 0; free = 20 }
    ∷ record { base = number 192 168 0 0; free = 16 }
    ∷ record { base = number 224 0 0 0; free = 29 }
    ∷ []

module _ (a b c d : ℕ) (ha : a < 256) (hb : b < 256) (hc : c < 256) (hd : d < 256) where
  abbrev n : ℕ
  n = number a b c d

  this_host :
      holds n (record { base = number 0 0 0 0; free = 0 }) ≡ (a == 0 && b == 0 && c == 0 && d == 0)
  this_host = ground arith

  ten : holds n (record { base = number 10 0 0 0; free = 24 }) ≡ (a == 10)
  ten = ground arith

  loopback : holds n (record { base = number 127 0 0 0; free = 24 }) ≡ (a == 127)
  loopback = ground arith

  link_local : holds n (record { base = number 169 254 0 0; free = 16 }) ≡ (a == 169 && b == 254)
  link_local = ground arith

  seventeen_two :
      holds n (record { base = number 172 16 0 0; free = 20 }) ≡ (a == 172 && leb 16 b && leb b 31)
  seventeen_two = ground arith

  one_nine_two : holds n (record { base = number 192 168 0 0; free = 16 }) ≡ (a == 192 && b == 168)
  one_nine_two = ground arith

  high : holds n (record { base = number 224 0 0 0; free = 29 }) ≡ leb 224 a
  high = ground arith

  broadcast_high : (a == 255 && b == 255 && c == 255 && d == 255) ≡ true → leb 224 a ≡ true
  broadcast_high h = ground arith

reorder :
    (lo p q r ll un bc hi : Bool)
    → (bc ≡ true → hi ≡ true)
    → (lo || (p || q || r) || ll || un || bc || hi)
      ≡ (un || (p || (lo || (ll || (q || (r || (hi || false)))))))
reorder lo p q r ll un bc hi h = ground arith

or_eq : {p p' q q' : Bool} → p ≡ p' → q' ≡ q → (p' || q') ≡ (p || q)
or_eq h k = ap₂ ◌||◌ (sym h) k

-- An IPv4 address is blocked exactly if it lies in 0.0.0.0/32, 10/8, 127/8, 169.254/16, 172.16/12,
-- 192.168/16 or 224/3.
pub is_blocked_v4-networks :
    (a b c d : ℕ)
    → a < 256
    → b < 256
    → c < 256
    → d < 256
    → is_blocked_v4 a b c d ≡ any (holds (number a b c d)) blocked_networks
unfolding is_blocked_v4 any
is_blocked_v4-networks a b c d ha hb hc hd =
    reorder (a == 127) (a == 10) (a == 172 && leb 16 b && leb b 31) (a == 192 && b == 168)
      (a == 169 && b == 254) (a == 0 && b == 0 && c == 0 && d == 0)
      (a == 255 && b == 255 && c == 255 && d == 255) (leb 224 a)
      (broadcast_high a b c d ha hb hc hd)
    ∙ or_eq (this_host a b c d ha hb hc hd) (
        or_eq (ten a b c d ha hb hc hd) (
          or_eq (loopback a b c d ha hb hc hd) (
            or_eq (link_local a b c d ha hb hc hd) (
              or_eq (seventeen_two a b c d ha hb hc hd) (
                or_eq (one_nine_two a b c d ha hb hc hd)
                  (or_eq (high a b c d ha hb hc hd) refl))))))

abbrev pub zeros : ℕ → ℕ → ℕ → ℕ → ℕ → ℕ → ℕ → Bool
zeros a b c d e f g = a == 0 && b == 0 && c == 0 && d == 0 && e == 0 && f == 0 && g == 0

-- The three masks of the IPv6 arm, as ranges.
abbrev same : Bool → Bool → Bool
same true b = b
same false b = not b

same_eq : (p q : Bool) → same p q ≡ true → p ≡ q
same_eq p q h = ground arith

abbrev pub multicast_range : ℕ → Bool
multicast_range x = leb 0xff00 x

abbrev pub unique_local_range : ℕ → Bool
unique_local_range x = leb 0xfc00 x && ltb x 0xfe00

abbrev pub link_local_range : ℕ → Bool
link_local_range x = leb 0xfe80 x && ltb x 0xfec0

and_true : (p q : Bool) → (p && q) ≡ true → (p ≡ true) × (q ≡ true)
and_true p q h = ground arith

mask_ok : ℕ → Bool
mask_ok x =
    same (bit_and x 0xff00 == 0xff00) (multicast_range x)
    && same (bit_and x 0xfe00 == 0xfc00) (unique_local_range x)
    && same (bit_and x 0xffc0 == 0xfe80) (link_local_range x)

mask_table : holds_up_to mask_ok 65536 ≡ true
unfolding holds_up_to mask_ok
mask_table = refl

mask_ranges :
    (x : ℕ)
    → mask_ok x ≡ true
    → ((bit_and x 0xff00 == 0xff00) ≡ multicast_range x)
      × ((bit_and x 0xfe00 == 0xfc00) ≡ unique_local_range x)
      × ((bit_and x 0xffc0 == 0xfe80) ≡ link_local_range x)
unfolding mask_ok
mask_ranges x h =
    let m = same (bit_and x 0xff00 == 0xff00) (multicast_range x) in
    let u = same (bit_and x 0xfe00 == 0xfc00) (unique_local_range x) in
    let l = same (bit_and x 0xffc0 == 0xfe80) (link_local_range x) in
    let p = and_true (m && u) l h in
    let q = and_true m u p.0 in (same_eq _ _ q.0, same_eq _ _ q.1, same_eq _ _ p.1)

and_true-true : (p : Bool) → p ≡ (p && true && true)
and_true-true true = refl
and_true-true false = refl

-- An IPv6 address is blocked exactly if it is ::1 or ::, lies in ff00::/8, fc00::/7 or fe80::/10, or
-- is ::ffff:a.b.c.d with a blocked a.b.c.d.
pub is_blocked_v6-ranges :
    (a b c d e f g h : ℕ)
    → a < 65536
    → is_blocked_ip (v6 a b c d e f g h) ≡ (
        zeros a b c d e f g && (h == 1)
        || zeros a b c d e f g && (h == 0)
        || multicast_range a
        || unique_local_range a
        || link_local_range a
        || zeros a b c d e 0 0
          && (f == 0xffff)
          && is_blocked_ip (v4 (g / 256) (g % 256) (h / 256) (h % 256)))
unfolding is_blocked_ip
is_blocked_v6-ranges a b c d e f g h small =
    let masks = mask_ranges a (holds_up_to-at mask_ok 65536 a mask_table small) in
    ap₂ ◌||◌ (ap₂ ◌||◌ (ap₂ ◌||◌ (ap₂ ◌||◌ refl masks.0) masks.1) masks.2) (
      ap (λ z. z && (f == 0xffff) && is_blocked_v4 (g / 256) (g % 256) (h / 256) (h % 256))
        (and_true-true (a == 0 && b == 0 && c == 0 && d == 0 && e == 0)))
