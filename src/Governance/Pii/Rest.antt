-- ===== src/Governance/Pii/Rest.antt =====
-- What `apply` keeps of the input.
use tako_ai_core.Common.{
  ℕ, zero, suc, ◌+◌, ◌-◌, ◌≤◌, ◌≡◌, refl, sym, ap, ◌∙◌, inl, inr, Bool-cases, leb, List, [], ◌∷◌,
  ◌++◌, All, arith,
}
use tako_ai_core.Governance.Rekor.{Bytes}
use tako_ai_core.Governance.Pii.{
  PiiKind, PiiHit, CompiledRule, take, drop, slice, passes, rule_hits, all_hits, compiled_rules,
  comes_first, place, sort_hits, keep, detect, assemble,
}
use tako_ai_core.Governance.Pii.Spans.{IsDisjoint, detect-IsDisjoint}

take-drop : (n : ℕ) (bs : Bytes) → take n bs ++ drop n bs ≡ bs
unfolding take drop
take-drop zero bs = refl
take-drop (suc n) [] = refl
take-drop (suc n) (b ∷ bs) = ap (λ z. b ∷ z) (take-drop n bs)

drop-drop : (m n k : ℕ) (bs : Bytes) → k ≡ n + m → drop m (drop n bs) ≡ drop k bs
unfolding drop
drop-drop m zero k bs e = ap (λ z. drop z bs) (omega arith)
drop-drop zero (suc n) zero [] e = absurd (omega arith)
drop-drop (suc m) (suc n) zero [] e = absurd (omega arith)
drop-drop zero (suc n) (suc k) [] e = refl
drop-drop (suc m) (suc n) (suc k) [] e = refl
drop-drop m (suc n) zero (b ∷ bs) e = absurd (omega arith)
drop-drop m (suc n) (suc k) (b ∷ bs) e = drop-drop m n k bs (omega arith)

slice-drop : (input : Bytes) (a b : ℕ) → a ≤ b → slice input a b ++ drop b input ≡ drop a input
unfolding slice
slice-drop input a b l =
    ap (λ z. take (b - a) (drop a input) ++ z) (sym (drop-drop (b - a) a b input (omega arith)))
    ∙ take-drop (b - a) (drop a input)

abbrev pub AreSpans : List PiiHit → Type 0
AreSpans = All (λ h. h.start ≤ h.end)

-- putting every found text back in its own place
abbrev pub raw_text : PiiHit → Bytes → Bytes
raw_text hit raw = raw

assemble-raw :
    (input : Bytes) (cursor : ℕ) (hs : List PiiHit)
    → IsDisjoint cursor hs
    → AreSpans hs
    → assemble raw_text input cursor hs ≡ drop cursor input
unfolding assemble
assemble-raw input cursor [] d s = refl
assemble-raw input cursor (h ∷ hs) d s =
    ap (λ z. slice input cursor h.start ++ (slice input h.start h.end ++ z))
      (assemble-raw input h.end hs d.1 s.1)
    ∙ ap (λ z. slice input cursor h.start ++ z) (slice-drop input h.start h.end s.0)
    ∙ slice-drop input cursor h.start d.0

place-AreSpans :
    (h : PiiHit) (xs : List PiiHit) → h.start ≤ h.end → AreSpans xs → AreSpans (place h xs)
unfolding place
place-AreSpans h [] l p = (l, tt)
place-AreSpans h (x ∷ xs) l p = elim (Bool-cases (comes_first h x)) [
  | inl t ↦ rw t (l, p)
  | inr t ↦ rw t (p.0, place-AreSpans h xs l p.1)
]

sort_hits-AreSpans : (hs : List PiiHit) → AreSpans hs → AreSpans (sort_hits hs)
unfolding sort_hits
sort_hits-AreSpans [] p = tt
sort_hits-AreSpans (h ∷ hs) p = place-AreSpans h (sort_hits hs) p.0 (sort_hits-AreSpans hs p.1)

keep-AreSpans : (cursor : ℕ) (hs : List PiiHit) → AreSpans hs → AreSpans (keep cursor hs)
unfolding keep
keep-AreSpans cursor [] p = tt
keep-AreSpans cursor (h ∷ hs) p = elim (Bool-cases (leb cursor h.start)) [
  | inl t ↦ rw (t, keep) (p.0, keep-AreSpans h.end hs p.1)
  | inr t ↦ rw (t, keep) (keep-AreSpans cursor hs p.1)
]

-- matches that end no earlier than they start
abbrev pub AreMatches : List (ℕ × ℕ) → Type 0
AreMatches = All (λ m. m.0 ≤ m.1)

rule_hits-AreSpans :
    (rule : CompiledRule) (input : Bytes) (ms : List (ℕ × ℕ))
    → AreMatches ms
    → AreSpans (rule_hits rule input ms)
unfolding rule_hits
rule_hits-AreSpans rule input [] p = tt
rule_hits-AreSpans rule input ((start, end) ∷ ms) p =
    elim (Bool-cases (passes rule.validate (slice input start end))) [
      | inl t ↦ rw (t, rule_hits) (p.0, rule_hits-AreSpans rule input ms p.1)
      | inr t ↦ rw (t, rule_hits) (rule_hits-AreSpans rule input ms p.1)
    ]

append-AreSpans : (xs ys : List PiiHit) → AreSpans xs → AreSpans ys → AreSpans (xs ++ ys)
append-AreSpans [] ys p q = q
append-AreSpans (x ∷ xs) ys p q = (p.0, append-AreSpans xs ys p.1 q)

all_hits-AreSpans :
    (rules : List CompiledRule) (input : Bytes)
    → All (λ r. AreMatches (r.find_iter input)) rules
    → AreSpans (all_hits rules input)
unfolding all_hits
all_hits-AreSpans [] input p = tt
all_hits-AreSpans (r ∷ rules) input p =
    append-AreSpans (rule_hits r input (r.find_iter input)) (all_hits rules input)
      (rule_hits-AreSpans r input (r.find_iter input) p.0) (all_hits-AreSpans rules input p.1)

-- If no match ends before it starts, nothing outside the detected hits is changed, lost or doubled:
-- the loop of `apply` gives the input back when every hit is replaced by its own text.
pub assemble-detect :
    (re : PiiKind → Bytes → List (ℕ × ℕ)) (input : Bytes)
    → ((kind : PiiKind) → AreMatches (re kind input))
    → assemble raw_text input 0 (detect re input) ≡ input
unfolding detect drop
assemble-detect re input ordered =
    assemble-raw input 0 (keep 0 (sort_hits (all_hits (compiled_rules re) input)))
      (detect-IsDisjoint re input).0
      (keep-AreSpans 0 (sort_hits (all_hits (compiled_rules re) input)) (
        sort_hits-AreSpans (all_hits (compiled_rules re) input) (
          all_hits-AreSpans (compiled_rules re) input (
            ordered _,
            (ordered _, (ordered _, (ordered _, (ordered _, (ordered _, (ordered _, tt)))))),
          ))))
