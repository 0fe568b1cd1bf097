-- ===== src/Governance/Pii.antt =====
-- crates/tako-governance/src/pii.rs: finding and replacing personal data. Texts are their UTF-8
-- bytes, as the spans count them; the regular expressions and the hash are arguments.
pub mod Spans
pub mod Rest
pub mod Luhn
pub mod Examples
use Prim.Native.Char.{code}
use tako_ai_core.Common.{
  ℕ, zero, suc, ◌+◌, ◌-◌, ◌*◌, ◌/◌, ◌%◌, Bool, true, false, not, ◌&&◌, ◌||◌, ltb, leb, ◌==◌,
  if◌then◌else◌, String, Option, none, some, List, [], ◌∷◌, ◌++◌, length,
}
use tako_ai_core.Governance.Rekor.{Bytes}

pub data ContentTransform : Type 0 where
  mask hash_sha256 redact : ContentTransform

pub data PiiKind : Type 0 where
  email phone ipv4 aws_key jwt ssn credit_card : PiiKind

pub label : PiiKind → String
label email = "EMAIL"
label phone = "PHONE"
label ipv4 = "IPV4"
label aws_key = "AWS_KEY"
label jwt = "JWT"
label ssn = "SSN"
label credit_card = "CREDIT_CARD"

pub record PiiHit : Type 0 where
  pub kind : PiiKind
  pub start : ℕ
  pub end : ℕ

pub record CompiledRule : Type 0 where
  pub kind : PiiKind
  pub find_iter : Bytes → List (ℕ × ℕ)
  pub validate : Option (Bytes → Bool)

pub take : ℕ → Bytes → Bytes
take zero bs = []
take (suc n) [] = []
take (suc n) (b ∷ bs) = b ∷ take n bs

pub drop : ℕ → Bytes → Bytes
drop zero bs = bs
drop (suc n) [] = []
drop (suc n) (b ∷ bs) = drop n bs

-- `&input[from..to]`
pub slice : Bytes → ℕ → ℕ → Bytes
slice input from to = take (to - from) (drop from input)

-- `to_digit(10)` of each character: only ASCII digits have one
pub digits : Bytes → List ℕ
digits [] = []
digits (b ∷ bs) =
    let rest = digits bs in if leb b'0' b && leb b b'9' then (b - b'0') ∷ rest else rest

pub reversed : List ℕ → List ℕ → List ℕ
reversed [] acc = acc
reversed (d ∷ ds) acc = reversed ds (d ∷ acc)

-- a digit's share of the sum, at the position `i` from the right
pub weight : ℕ → ℕ → ℕ
weight i d = if i % 2 == 1 then (if ltb 9 (d * 2) then d * 2 - 9 else d * 2) else d

-- the `for` loop over the reversed digits
pub luhn_sum : ℕ → List ℕ → ℕ
luhn_sum i [] = 0
luhn_sum i (d ∷ ds) = weight i d + luhn_sum (i + 1) ds

pub luhn_digits : List ℕ → Bool
luhn_digits ds =
    if ltb (length ds) 13 || ltb 19 (length ds)
    then false
    else luhn_sum 0 (reversed ds []) % 10 == 0

pub luhn_check : Bytes → Bool
luhn_check s = luhn_digits (digits s)

-- the rules in their order, each with its regular expression
abbrev pub compiled_rules : (PiiKind → Bytes → List (ℕ × ℕ)) → List CompiledRule
compiled_rules re =
    record { kind = email; find_iter = re email; validate = none }
    ∷ record { kind = aws_key; find_iter = re aws_key; validate = none }
    ∷ record { kind = jwt; find_iter = re jwt; validate = none }
    ∷ record { kind = ssn; find_iter = re ssn; validate = none }
    ∷ record { kind = credit_card; find_iter = re credit_card; validate = some luhn_check }
    ∷ record { kind = phone; find_iter = re phone; validate = none }
    ∷ record { kind = ipv4; find_iter = re ipv4; validate = none }
    ∷ []

abbrev pub passes : Option (Bytes → Bool) → Bytes → Bool
passes none raw = true
passes (some v) raw = v raw

-- the inner loop, over the matches of one rule
pub rule_hits : CompiledRule → Bytes → List (ℕ × ℕ) → List PiiHit
rule_hits rule input [] = []
rule_hits rule input ((start, end) ∷ rest) =
    let more = rule_hits rule input rest in
    if passes rule.validate (slice input start end)
    then record { kind = rule.kind; start = start; end = end } ∷ more
    else more

pub all_hits : List CompiledRule → Bytes → List PiiHit
all_hits [] input = []
all_hits (rule ∷ rules) input = rule_hits rule input (rule.find_iter input) ++ all_hits rules input

-- the order of `sort_by_key`: by start, and the longer first
pub comes_first : PiiHit → PiiHit → Bool
comes_first a b =
    ltb a.start b.start || (a.start == b.start && leb (b.end - b.start) (a.end - a.start))

-- a stable sort: a hit goes before those of its own key that came later
pub place : PiiHit → List PiiHit → List PiiHit
place h [] = h ∷ []
place h (x ∷ xs) = let later = place h xs in if comes_first h x then h ∷ x ∷ xs else x ∷ later

pub sort_hits : List PiiHit → List PiiHit
sort_hits [] = []
sort_hits (h ∷ hs) = place h (sort_hits hs)

-- the loop that drops overlapping hits
pub keep : ℕ → List PiiHit → List PiiHit
keep cursor [] = []
keep cursor (h ∷ hs) =
    let kept = keep h.end hs in
    let skipped = keep cursor hs in if leb cursor h.start then h ∷ kept else skipped

pub detect : (PiiKind → Bytes → List (ℕ × ℕ)) → Bytes → List PiiHit
detect re input = keep 0 (sort_hits (all_hits (compiled_rules re) input))

pub hex_digit : ℕ → ℕ
hex_digit n = if ltb n 10 then b'0' + n else b'a' + (n - 10)

pub hex : Bytes → Bytes
hex [] = []
hex (b ∷ bs) = hex_digit (b / 16) ∷ hex_digit (b % 16) ∷ hex bs

-- one `*` for each character: bytes 0x80 to 0xbf continue one
pub stars : Bytes → Bytes
stars [] = []
stars (b ∷ bs) = let rest = stars bs in if leb 0x80 b && leb b 0xbf then rest else b'*' ∷ rest

pub ascii : String → Bytes
ascii String.[] = []
ascii (String.◌∷◌ c rest) = code c ∷ ascii rest

pub replacement : (Bytes → Bytes) → ContentTransform → PiiHit → Bytes → Bytes
replacement sha256 mask hit raw = stars raw
replacement sha256 hash_sha256 hit raw = hex (sha256 raw)
replacement sha256 redact hit raw = ascii "[REDACTED:" ++ ascii (label hit.kind) ++ ascii "]"

-- the loop of `apply`, and the rest of the input behind it
pub assemble : (PiiHit → Bytes → Bytes) → Bytes → ℕ → List PiiHit → Bytes
assemble f input cursor [] = drop cursor input
assemble f input cursor (h ∷ hs) =
    slice input cursor h.start ++ (f h (slice input h.start h.end) ++ assemble f input h.end hs)

pub apply : (PiiKind → Bytes → List (ℕ × ℕ)) → (Bytes → Bytes) → Bytes → ContentTransform → Bytes
apply re sha256 input transform = elim (detect re input) [
  | [] ↦ input
  | h ∷ hs ↦ assemble (replacement sha256 transform) input 0 (h ∷ hs)
]
