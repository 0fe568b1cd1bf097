-- ===== src/Common/Strings.antt =====
-- Functions of `str` that the code calls.
use Prim.Native.Char.{code}
use Prim.Native.Nat.{ℕ}
use Prim.Native.String.{String}
use mathlib.Core.Bool.{Bool, true, false, ◌&&◌, ◌||◌}
use mathlib.Core.Option.{Option, none, some}
use tako_ai_core.Common.Tests.{str_eq, ◌==◌, leb, if◌then◌else◌}

-- `s.ends_with(t)`
unfoldable pub ends_with : String → String → Bool
ends_with String.[] t = str_eq String.[] t
ends_with (String.◌∷◌ c s) t = str_eq (String.◌∷◌ c s) t || ends_with s t

-- `s.strip_prefix("*.")`
unfoldable pub strip_star_dot : String → Option String
strip_star_dot (String.◌∷◌ c (String.◌∷◌ d s)) =
    if code c == b'*' && code d == b'.' then some s else none
strip_star_dot _ = none

-- `s.trim_start_matches(p)`
unfoldable pub trim_start_matches : (ℕ → Bool) → String → String
trim_start_matches p String.[] = String.[]
trim_start_matches p (String.◌∷◌ c s) =
    if p (code c) then trim_start_matches p s else String.◌∷◌ c s

-- `s.trim_end_matches(p)`
unfoldable pub trim_end_matches : (ℕ → Bool) → String → String
trim_end_matches p String.[] = String.[]
trim_end_matches p (String.◌∷◌ c s) =
    let rest = trim_end_matches p s in
    if p (code c) && str_eq rest String.[] then String.[] else String.◌∷◌ c rest

-- Unicode's `White_Space`
abbrev pub is_whitespace : ℕ → Bool
is_whitespace c =
    leb 9 c && leb c 13
    || c == 32
    || c == 0x85
    || c == 0xa0
    || c == 0x1680
    || leb 0x2000 c && leb c 0x200a
    || c == 0x2028
    || c == 0x2029
    || c == 0x202f
    || c == 0x205f
    || c == 0x3000

-- `s.trim()`
unfoldable pub trim : String → String
unfolding trim_start_matches trim_end_matches
trim s = trim_end_matches is_whitespace (trim_start_matches is_whitespace s)

-- `s.split(c).next().unwrap_or("")`
unfoldable pub before_char : ℕ → String → String
before_char k String.[] = String.[]
before_char k (String.◌∷◌ c s) = if code c == k then String.[] else String.◌∷◌ c (before_char k s)

unfoldable pub string_append : String → String → String
string_append String.[] t = t
string_append (String.◌∷◌ c s) t = String.◌∷◌ c (string_append s t)

-- `starts_with` and `contains`
unfoldable pub starts_with : String → String → Bool
starts_with s String.[] = true
starts_with String.[] (String.◌∷◌ d t) = false
starts_with (String.◌∷◌ c s) (String.◌∷◌ d t) = (code c == code d) && starts_with s t

unfoldable pub contains_text : String → String → Bool
unfolding starts_with
contains_text String.[] t = starts_with String.[] t
contains_text (String.◌∷◌ c s) t = starts_with (String.◌∷◌ c s) t || contains_text s t
