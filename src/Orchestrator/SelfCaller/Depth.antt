-- ===== src/Orchestrator/SelfCaller/Depth.antt =====
-- The depth counter as text: `u8::to_string` and `str::parse::<u8>`.
use Prim.Native.Char.{code}
use tako_ai_core.Common.{
  ℕ, ◌+◌, ◌-◌, ◌*◌, ◌/◌, ◌%◌, ◌<◌, String, ◌≡◌, refl, Option, none, some, Bool, true, false, ◌&&◌,
  leb, ltb, ◌==◌, if◌then◌else◌, string_append, holds_up_to, holds_up_to-at, arith,
}

abbrev pub u8_max : ℕ
u8_max = 255

abbrev digit : ℕ → String
digit d =
    if d == 0
    then "0"
    else if d == 1
    then "1"
    else if d == 2
    then "2"
    else if d == 3
    then "3"
    else if d == 4
    then "4"
    else if d == 5
    then "5"
    else if d == 6
    then "6"
    else if d == 7
    then "7"
    else if d == 8
    then "8"
    else "9"

pub show_u8 : ℕ → String
show_u8 n =
    if ltb n 10
    then digit n
    else if ltb n 100
    then string_append (digit (n / 10)) (digit (n % 10))
    else string_append (digit (n / 100)) (string_append (digit (n / 10 % 10)) (digit (n % 10)))

-- the digits behind an optional sign; a value above 255 is an error
parse_digits : ℕ → String → Option ℕ
parse_digits acc String.[] = some acc
parse_digits acc (String.◌∷◌ c s) =
    let next = acc * 10 + (code c - 48) in
    let rest = parse_digits next s in
    if leb 48 (code c) && leb (code c) 57 && leb next u8_max then rest else none

abbrev parse_nonempty : String → Option ℕ
parse_nonempty String.[] = none
parse_nonempty (String.◌∷◌ c s) = parse_digits 0 (String.◌∷◌ c s)

pub parse_u8 : String → Option ℕ
unfolding parse_digits
parse_u8 String.[] = none
parse_u8 (String.◌∷◌ c s) =
    if code c == b'+' then parse_nonempty s else parse_digits 0 (String.◌∷◌ c s)

round_trips : ℕ → Bool
round_trips n = elim (parse_u8 (show_u8 n)) [ none ↦ false | some m ↦ m == n ]

round_trip_table : holds_up_to round_trips 256 ≡ true
unfolding holds_up_to round_trips parse_u8 show_u8 string_append
round_trip_table = refl

pub parse_u8-show_u8 : (n : ℕ) → n < 256 → parse_u8 (show_u8 n) ≡ some n
unfolding round_trips
parse_u8-show_u8 n h = let t = holds_up_to-at round_trips 256 n round_trip_table h in ground arith
