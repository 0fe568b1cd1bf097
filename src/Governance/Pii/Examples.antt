-- ===== src/Governance/Pii/Examples.antt =====
-- The theorems on personal data at concrete inputs.
use tako_ai_core.Common.{ℕ, ◌≡◌, refl, ◌⊎◌, true, List, [], ◌∷◌, ◌++◌, In, arith}
use tako_ai_core.Governance.Rekor.{Bytes}
use tako_ai_core.Governance.Pii.{
  PiiKind, email, phone, ipv4, aws_key, jwt, ssn, credit_card, PiiHit, detect, assemble, reversed,
  weight, luhn_sum, luhn_digits,
}
use tako_ai_core.Governance.Pii.Spans.{IsDisjoint, Covered, found, detect-IsDisjoint}
use tako_ai_core.Governance.Pii.Rest.{raw_text, AreMatches, assemble-detect}

-- an e-mail address, and a number inside it
abbrev re : PiiKind → Bytes → List (ℕ × ℕ)
re email input = (1, 4) ∷ []
re phone input = (2, 4) ∷ []
re _ input = []

abbrev input : Bytes
input = b'a' ∷ b'b' ∷ b'c' ∷ b'd' ∷ b'e' ∷ []

detect-IsDisjoint_example :
    IsDisjoint 0 (detect re input)
    × ((c : PiiHit) → In c (found re input) → In c (detect re input) ⊎ Covered (detect re input) c)
detect-IsDisjoint_example = detect-IsDisjoint re input

re_ordered : (kind : PiiKind) → AreMatches (re kind input)
re_ordered email = (omega arith, tt)
re_ordered phone = (omega arith, tt)
re_ordered ipv4 = tt
re_ordered aws_key = tt
re_ordered jwt = tt
re_ordered ssn = tt
re_ordered credit_card = tt

assemble-detect_example : assemble raw_text input 0 (detect re input) ≡ input
assemble-detect_example = assemble-detect re input re_ordered

-- 4111 1111 1111 1111 is a test number
abbrev front : List ℕ
front = 4 ∷ 1 ∷ 1 ∷ 1 ∷ 1 ∷ 1 ∷ 1 ∷ []

abbrev back : List ℕ
back = 1 ∷ 1 ∷ 1 ∷ 1 ∷ 1 ∷ 1 ∷ 1 ∷ 1 ∷ []

card_is_valid : luhn_digits (front ++ 1 ∷ back) ≡ true
unfolding luhn_digits luhn_sum weight reversed
card_is_valid = refl
