-- ===== src/Orchestrator/Routing/Chosen.antt =====
-- What RegexRouter of crates/tako-orchestrator/src/router.rs picks.
use tako_ai_core.Common.{
  ℕ, suc, ◌<◌, ◌≡◌, refl, ap, sym, ◌∙◌, ◌⊎◌, inl, inr, true, false, String, none, some,
  Option-cases, List, [], ◌∷◌, ◌++◌, any, All, length, get_elem?, get_elem?-some, arith,
}
use tako_ai_core.Core.Effects.{ok}
use tako_ai_core.Core.Types.{ChatRequest, RoutingDecision}
use tako_ai_core.Orchestrator.Routing.Features.{Float32, featurise}
use tako_ai_core.Orchestrator.Routing.{
  Rule, RegexRouter, find_rule, smaller, picks, chosen_idx, confidence_of, route,
}

module _ {F : Type 0} (feat : List F) where
  abbrev pub Abstains : Rule F → Type 0
  Abstains r = r feat ≡ none

  -- the first rule that does not abstain, and what it says
  pub record IsFirst (rules : List (Rule F)) (i : ℕ) : Type 0 where
    pub before : List (Rule F)
    pub fired : Rule F
    pub after : List (Rule F)
    pub split : rules ≡ before ++ fired ∷ after
    pub abstain : All Abstains before
    pub says : fired feat ≡ some i

  find_rule-IsFirst :
      (rules : List (Rule F)) (i : ℕ) → find_rule rules feat ≡ some i → IsFirst rules i
  unfolding find_rule
  find_rule-IsFirst [] i h = cc
  find_rule-IsFirst (r ∷ rs) i h = elim (Option-cases (r feat)) [
    | inl quiet ↦
        let rest = find_rule-IsFirst rs i (sym (rw (find_rule, quiet) refl) ∙ h) in
        record {
          before = r ∷ rest.before;
          fired = rest.fired;
          after = rest.after;
          split = ap (λ x. r ∷ x) rest.split;
          abstain = (quiet, rest.abstain);
          says = rest.says;
        }
    | inr (j, says) ↦ record {
      before = [];
      fired = r;
      after = rs;
      split = refl;
      abstain = tt;
      says = says ∙ (sym (rw (find_rule, says) refl) ∙ h);
    }
  ]

  find_rule-none : (rules : List (Rule F)) → find_rule rules feat ≡ none → All Abstains rules
  unfolding find_rule
  find_rule-none [] h = tt
  find_rule-none (r ∷ rs) h = elim (Option-cases (r feat)) [
    | inl quiet ↦ (quiet, find_rule-none rs (sym (rw (find_rule, quiet) refl) ∙ h))
    | inr (j, says) ↦
        absurd (let here : find_rule (r ∷ rs) feat ≡ some j = rw (find_rule, says) refl in cc)
  ]

  -- the pick of the first rule is among those that the confidence looks for
  any-picks :
      (rules : List (Rule F)) (i last : ℕ)
      → find_rule rules feat ≡ some i
      → any (picks feat last (smaller i last)) rules ≡ true
  unfolding find_rule any picks
  any-picks [] i last h = cc
  any-picks (r ∷ rs) i last h = elim (Option-cases (r feat)) [
    | inl quiet ↦
        rw (any, picks, quiet) (any-picks rs i last (sym (rw (find_rule, quiet) refl) ∙ h))
    | inr (j, says) ↦
        let here : find_rule (r ∷ rs) feat ≡ some j = rw (find_rule, says) refl in
        let same : j ≡ i = cc in
        let picked : picks feat last (smaller i last) r ≡ true =
          rw (picks, says, same) (ground arith) in
        rw (any, picked) refl
  ]

  any-picks_none :
      (rules : List (Rule F)) (last chosen : ℕ)
      → All Abstains rules
      → any (picks feat last chosen) rules ≡ false
  unfolding any picks
  any-picks_none [] last chosen h = refl
  any-picks_none (r ∷ rs) last chosen (quiet, rest) =
      rw (any, picks, quiet) (any-picks_none rs last chosen rest)

smaller_lt : (i last : ℕ) → smaller i last < suc last
smaller_lt i last = ground arith

module _ (f : Float32) {R : Type 0} (lowercase : String → String) where
  abbrev features : ChatRequest R → List f.F
  features req = featurise f lowercase req

  decides :
      (r : RegexRouter f.F) (req : ChatRequest R) (c : String) (cs : List String) (chosen : ℕ)
      → chosen_idx f r (features req) (length cs) ≡ chosen
      → chosen < suc (length cs)
      → (d : RoutingDecision f.F) × (route f lowercase r req (c ∷ cs) ≡ some (ok d))
        × (get_elem? (c ∷ cs) chosen ≡ some d.provider_id)
        × (d.confidence ≡ confidence_of f r (features req) (length cs) chosen)
  unfolding route
  decides r req c cs chosen x small =
      let (id, found) = get_elem?-some (c ∷ cs) chosen small in
      (
        record {
          provider_id = id;
          confidence = confidence_of f r (features req) (length cs) chosen;
          reason = some "regex-router";
        },
        rw (route, x, found, x) refl,
        found,
        refl,
      )

  -- With a candidate at all, a route never panics or fails. If a rule does not abstain, the first such
  -- rule's pick, or the last candidate where that is too large, is the provider, with confidence 1;
  -- if all rules abstain it is the default, brought into range likewise, with confidence 0.5.
  pub route-Picks :
      (r : RegexRouter f.F) (req : ChatRequest R) (c : String) (cs : List String)
      → (d : RoutingDecision f.F) × (route f lowercase r req (c ∷ cs) ≡ some (ok d))
        × (((i : ℕ) × IsFirst (featurise f lowercase req) r.rules i
              × (get_elem? (c ∷ cs) (smaller i (length cs)) ≡ some d.provider_id)
              × (d.confidence ≡ f.of_nat 1))
            ⊎ (All (Abstains (featurise f lowercase req)) r.rules
                × (get_elem? (c ∷ cs) (smaller r.default_idx (length cs)) ≡ some d.provider_id)
                × (d.confidence ≡ f.half)))
  unfolding chosen_idx confidence_of
  route-Picks r req c cs =
      let feat = featurise f lowercase req in
      let last = length cs in
      elim (Option-cases (find_rule r.rules feat)) [
        | inl quiet ↦
            let all_quiet = find_rule-none feat r.rules quiet in
            let at : chosen_idx f r feat last ≡ smaller r.default_idx last =
              rw (chosen_idx, quiet) refl in
            let (d, routed, there, sure) =
              decides r req c cs (smaller r.default_idx last) at (smaller_lt r.default_idx last) in
            let none_picks =
              any-picks_none feat r.rules last (smaller r.default_idx last) all_quiet in
            (d, routed, inr (all_quiet, there, sure ∙ rw (confidence_of, none_picks) refl))
        | inr (i, first) ↦
            let at : chosen_idx f r feat last ≡ smaller i last = rw (chosen_idx, first) refl in
            let (d, routed, there, sure) =
              decides r req c cs (smaller i last) at (smaller_lt i last) in
            let one_picks = any-picks feat r.rules i last first in
            (
              d,
              routed,
              inl (
                i,
                find_rule-IsFirst feat r.rules i first,
                there,
                sure ∙ rw (confidence_of, one_picks) refl,
              ),
            )
      ]
