-- ===== src/Orchestrator/Routing.antt =====
-- crates/tako-orchestrator/src/router.rs: RegexRouter, which picks a provider by rules on a request's
-- features. A call of it changes nothing outside; `none` is a panic.
pub mod Features
pub mod Chosen
pub mod Defaults
pub mod Examples
use tako_ai_core.Common.{
  ℕ, suc, ◌-◌, Bool, true, false, ◌==◌, ◌||◌, leb, if◌then◌else◌, String, Option, none, some, List,
  [], ◌∷◌, ◌++◌, any, length, get_elem?,
}
use tako_ai_core.Core.Error.{lit, invalid}
use tako_ai_core.Core.Effects.{Result, ok, err}
use tako_ai_core.Core.Types.{ChatRequest, RoutingDecision}
use tako_ai_core.Orchestrator.Routing.Features.{Float32, featurise}

abbrev pub Rule : Type 0 → Type 0
Rule F = List F → Option ℕ

-- `RegexRouter`, and `RegexRouterBuilder`, which has the same fields
pub record RegexRouter (F : Type 0) : Type 0 where
  pub rules : List (Rule F)
  pub default_idx : ℕ

-- `min`
abbrev pub smaller : ℕ → ℕ → ℕ
smaller a b = if leb a b then a else b

module _ {F : Type 0} where
  abbrev pub builder : RegexRouter F
  builder = record { rules = []; default_idx = 0 }

  abbrev pub rule : Rule F → RegexRouter F → RegexRouter F
  rule f b = record b { rules = b.rules ++ f ∷ [] }

  abbrev pub default_idx : ℕ → RegexRouter F → RegexRouter F
  default_idx idx b = record b { default_idx = idx }

  abbrev pub build : RegexRouter F → RegexRouter F
  build b = record { rules = b.rules; default_idx = b.default_idx }

  -- `find_map` over the rules
  unfoldable pub find_rule : List (Rule F) → List F → Option ℕ
  find_rule [] feat = none
  find_rule (r ∷ rs) feat = elim (r feat) [ some i ↦ some i | none ↦ find_rule rs feat ]

  -- whether a rule picks the candidate, once its pick is brought below the number of candidates
  unfoldable pub picks : List F → ℕ → ℕ → Rule F → Bool
  picks feat last chosen r = elim (r feat) [ some i ↦ smaller i last == chosen | none ↦ false ]

module _ (f : Float32) where
  -- `f.get(i).copied().unwrap_or(0.0) > 0.5`
  unfoldable pub lit_up : List f.F → ℕ → Bool
  lit_up feat i = f.gt (elim (get_elem? feat i) [ some x ↦ x | none ↦ f.of_nat 0 ]) f.half

  unfoldable pub code_rule : Rule f.F
  code_rule feat = if lit_up feat 3 || lit_up feat 4 || lit_up feat 8 then some 0 else none

  unfoldable pub math_rule : Rule f.F
  math_rule feat = if lit_up feat 5 || lit_up feat 9 then some 1 else none

  -- `RegexRouter::default`
  abbrev pub default_router : RegexRouter f.F
  default_router = build (default_idx 2 (rule math_rule (rule code_rule builder)))

  -- the index that `route` picks, for candidates with this last index
  unfoldable pub chosen_idx : RegexRouter f.F → List f.F → ℕ → ℕ
  chosen_idx r feat last =
      smaller (elim (find_rule r.rules feat) [ some i ↦ i | none ↦ r.default_idx ]) last

  unfoldable pub confidence_of : RegexRouter f.F → List f.F → ℕ → ℕ → f.F
  confidence_of r feat last chosen =
      if any (picks feat last chosen) r.rules then f.of_nat 1 else f.half

  -- `RegexRouter::route`
  unfoldable pub route :
      {R : Type 0}
      → (String → String)
      → RegexRouter f.F
      → ChatRequest R
      → List String
      → Option (Result (RoutingDecision f.F))
  route lowercase r req [] =
      some (err (invalid (lit "RegexRouter::route: candidate list is empty" ∷ [])))
  route lowercase r req (c ∷ cs) =
      let feat = featurise f lowercase req in
      let last = length cs in
      let chosen = chosen_idx r feat last in
      elim (get_elem? (c ∷ cs) chosen) [
        | none ↦ none
        | some id ↦ some (
            ok (record {
              provider_id = id;
              confidence = confidence_of r feat last chosen;
              reason = some "regex-router";
            }))
      ]
