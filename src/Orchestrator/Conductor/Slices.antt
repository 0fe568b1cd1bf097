-- ===== src/Orchestrator/Conductor/Slices.antt =====
-- The byte slice in `short` of crates/tako-orchestrator/src/conductor.rs.
use Prim.Native.Char.{Char, code}
use tako_ai_core.Common.{
  ℕ, zero, suc, ◌+◌, ◌-◌, ◌≤◌, ◌<◌, ◌≡◌, refl, ap, ◌↔◌, inl, inr, true, false, Bool-cases, leb,
  leb→le, String, none, some, Option-cases, trim, string_append, arith,
}
use tako_ai_core.Orchestrator.Conductor.Plan.{utf8_len, byte_len, cut, short}

-- a text is a prefix of so many bytes and a rest
pub record Splits (s : String) (n : ℕ) : Type 0 where
  pub before : String
  pub after : String
  pub whole : string_append before after ≡ s
  pub bytes : byte_len before ≡ n

utf8_len-positive : (c : ℕ) → 0 < utf8_len c
utf8_len-positive c = ground arith

cut-Splits : (s : String) (n : ℕ) (p : String) → cut s n ≡ some p → Splits s n
unfolding cut byte_len string_append
cut-Splits s zero p h = record { before = String.[]; after = s; whole = refl; bytes = refl }
cut-Splits String.[] (suc n) p h = cc
cut-Splits (String.◌∷◌ c s) (suc n) p h = elim (Option-cases (cut s (suc n - utf8_len (code c)))) [
  | inl nothing ↦ absurd (ground arith)
  | inr (q, found) ↦ elim (Bool-cases (leb (utf8_len (code c)) (suc n))) [
    | inl fits ↦
        let inner = cut-Splits s (suc n - utf8_len (code c)) q found in
        let room = leb→le (utf8_len (code c)) (suc n) fits in
        record {
          before = String.◌∷◌ c inner.before;
          after = inner.after;
          whole = ap (String.◌∷◌ c) inner.whole;
          bytes = omega (arith, inner.bytes);
        }
    | inr too_long ↦ absurd (ground arith)
  ]
]

cut_cons :
    (c : Char) (s q : String) (n : ℕ)
    → 0 < n
    → utf8_len (code c) ≤ n
    → cut s (n - utf8_len (code c)) ≡ some q
    → cut (String.◌∷◌ c s) n ≡ some (String.◌∷◌ c q)
unfolding cut
cut_cons c s q zero some_byte fits h = absurd (omega arith)
cut_cons c s q (suc n) some_byte fits h =
    let fits_too : leb (utf8_len (code c)) (suc n) ≡ true = ground arith in
    rw (cut, h, fits_too) refl

cut-append : (p r : String) → cut (string_append p r) (byte_len p) ≡ some p
unfolding byte_len string_append cut
cut-append String.[] r = refl
cut-append (String.◌∷◌ c p) r =
    let rest : utf8_len (code c) + byte_len p - utf8_len (code c) ≡ byte_len p = omega arith in
    cut_cons c (string_append p r) p (utf8_len (code c) + byte_len p)
      (omega (arith, utf8_len-positive (code c))) (omega arith) (rw (rest) (cut-append p r))

-- Shortening a task panics exactly if the trimmed text has more than 60 bytes and its 57th byte is
-- not the last one of a character.
pub short-Splits :
    (s : String) → (short s ≡ none) ↔ ((60 < byte_len (trim s)) × (Splits (trim s) 57 → ⊥))
unfolding short
short-Splits s = (
  λ panics. elim (Bool-cases (leb (byte_len (trim s)) 60)) [
    | inl brief ↦ absurd (ground arith)
    | inr long ↦ (
      ground arith,
      λ split.
          let found : cut (trim s) 57 ≡ some split.before =
            rw (split.whole, split.bytes) at (cut-append split.before split.after) in
          absurd (ground arith),
    )
  ],
  λ cannot.
      let (long, unsplit) = cannot in
      elim (Option-cases (cut (trim s) 57)) [
        | inl nothing ↦
            let over : leb (byte_len (trim s)) 60 ≡ false = ground arith in
            rw (short, over, nothing) refl
        | inr (p, found) ↦ absurd (unsplit (cut-Splits (trim s) 57 p found))
      ],
)
