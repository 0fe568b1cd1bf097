-- ===== src/Orchestrator/Routing/Examples.antt =====
-- The theorems on routing at concrete inputs.
use tako_ai_core.Common.{
  ℕ, ◌*◌, ◌/◌, ◌+◌, ◌≡◌, refl, ◌⊎◌, String, ltb, some, [], ◌∷◌, All, get_elem?, any, contains_text,
  starts_with,
}
use tako_ai_core.Core.Effects.{ok}
use tako_ai_core.Core.Types.{user_message, ChatRequest, new_request, RoutingDecision, as_text}
use tako_ai_core.Orchestrator.AbMcts.Search.{join_lines}
use tako_ai_core.Orchestrator.Conductor.Plan.{byte_len}
use tako_ai_core.Orchestrator.Routing.Features.{
  Float32, featurise, featurise_text, last_user_text, text_parts, has_code_block, has_any,
  has_math_symbol, any_char, count_chars, count_words,
}
use tako_ai_core.Orchestrator.Routing.{
  default_router, smaller, chosen_idx, route, find_rule, lit_up, code_rule, math_rule,
  confidence_of, picks,
}
use tako_ai_core.Orchestrator.Routing.Chosen.{IsFirst, Abstains, route-Picks}
use tako_ai_core.Orchestrator.Routing.Defaults.{default_router-chosen_idx}

-- numbers of halves
abbrev halves : Float32
halves = record {
  F = ℕ;
  of_nat = λ n. 2 * n;
  half = 1;
  add = λ a b. a + b;
  div = λ a b. a * 2 / b;
  log10 = λ a. a;
  min = smaller;
  gt = λ a b. ltb b a;
}

abbrev same : String → String
same s = s

abbrev asked : ChatRequest ℕ
asked = new_request "m" (user_message "fn main" ∷ user_message "solve it" ∷ [])

solver_routed :
    route halves same (default_router halves) asked ("coder" ∷ "solver" ∷ [])
    ≡ some (ok (record { provider_id = "solver"; confidence = 2; reason = some "regex-router" }))
unfolding route featurise featurise_text last_user_text text_parts as_text join_lines byte_len
    has_code_block has_any has_math_symbol any_char count_chars count_words chosen_idx find_rule
    lit_up code_rule math_rule confidence_of picks any contains_text starts_with get_elem?
solver_routed = refl

route-Picks_example :
    (d : RoutingDecision ℕ) × (route halves same
        (default_router halves)
        asked
        ("coder" ∷ "solver" ∷ [])
      ≡ some (ok d))
    × (((i : ℕ) × IsFirst (featurise halves same asked) (default_router halves).rules i
          × (get_elem? ("coder" ∷ "solver" ∷ []) (smaller i 1) ≡ some d.provider_id)
          × (d.confidence ≡ 2))
        ⊎ (All (Abstains (featurise halves same asked)) (default_router halves).rules
            × (get_elem? ("coder" ∷ "solver" ∷ []) (smaller 2 1) ≡ some d.provider_id)
            × (d.confidence ≡ 1)))
route-Picks_example = route-Picks halves same (default_router halves) asked "coder" ("solver" ∷ [])

default_router-chosen_idx_example :
    chosen_idx halves (default_router halves) (featurise_text halves same "solve it") 4 ≡ 1
unfolding has_any has_code_block has_math_symbol any_char any contains_text starts_with
default_router-chosen_idx_example = default_router-chosen_idx halves same refl refl "solve it" 4
