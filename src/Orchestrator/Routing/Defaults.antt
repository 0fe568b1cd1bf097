-- ===== src/Orchestrator/Routing/Defaults.antt =====
-- The default rules of crates/tako-orchestrator/src/router.rs on the features of features.rs.
use tako_ai_core.Common.{
  ℕ, ◌≡◌, refl, inl, inr, Bool, true, false, Bool-cases, ◌||◌, if◌then◌else◌, String, none, some,
  [], ◌∷◌, contains_text, get_elem?,
}
use tako_ai_core.Orchestrator.Routing.Features.{
  Float32, flag, featurise_text, has_code_block, has_any, has_math_symbol, code_kw,
}
use tako_ai_core.Orchestrator.Routing.{
  default_router, find_rule, smaller, lit_up, code_rule, math_rule, chosen_idx,
}

abbrev pub looks_like_code : (String → String) → String → Bool
looks_like_code lowercase t =
    has_code_block t || has_any code_kw (lowercase t) || contains_text (lowercase t) "code"

abbrev pub looks_like_math : (String → String) → String → Bool
looks_like_math lowercase t = has_math_symbol t || has_any ("math" ∷ "solve" ∷ []) (lowercase t)

module _ (f : Float32) (lowercase : String → String) (one : f.gt (f.of_nat 1) f.half ≡ true)
    (nought : f.gt (f.of_nat 0) f.half ≡ false) where
  flag_gt : (b : Bool) → f.gt (flag f lowercase b) f.half ≡ b
  flag_gt true = one
  flag_gt false = nought

  code_rule_lem :
      (t : String)
      → code_rule f (featurise_text f lowercase t)
        ≡ (if looks_like_code lowercase t then some 0 else none)
  unfolding code_rule lit_up featurise_text get_elem?
  code_rule_lem t =
      rw
        (
          flag_gt (has_code_block t),
          flag_gt (has_any code_kw (lowercase t)),
          flag_gt (contains_text (lowercase t) "code"),
        )
        refl

  math_rule_lem :
      (t : String)
      → math_rule f (featurise_text f lowercase t)
        ≡ (if looks_like_math lowercase t then some 1 else none)
  unfolding math_rule lit_up featurise_text get_elem?
  math_rule_lem t =
      rw (flag_gt (has_math_symbol t), flag_gt (has_any ("math" ∷ "solve" ∷ []) (lowercase t))) refl

  -- If 1 is above 0.5 and 0 is not, the default router picks the first candidate for a text that looks
  -- like code, else the second for one that looks like mathematics, else the third; with fewer
  -- candidates the last takes the place of those that are not there.
  pub default_router-chosen_idx :
      (t : String) (last : ℕ)
      → chosen_idx f (default_router f) (featurise_text f lowercase t) last
        ≡ smaller
            (if looks_like_code lowercase t
              then 0
              else if looks_like_math lowercase t
              then 1
              else 2)
            last
  unfolding chosen_idx find_rule
  default_router-chosen_idx t last = elim (Bool-cases (looks_like_code lowercase t)) [
    | inl code ↦ rw (code_rule_lem t, code) refl
    | inr no_code ↦ elim (Bool-cases (looks_like_math lowercase t)) [
      | inl math ↦ rw (code_rule_lem t, no_code, math_rule_lem t, math) refl
      | inr no_math ↦ rw (code_rule_lem t, no_code, math_rule_lem t, no_math) refl
    ]
  ]
