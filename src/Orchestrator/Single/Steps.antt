-- ===== src/Orchestrator/Single/Steps.antt =====
-- How far a run goes, and what it answers.
use tako_ai_core.Common.{
  ℕ, zero, suc, ◌+◌, ◌≤◌, ◌<◌, ◌≡◌, sym, ap, ◌∙◌, ◌⊎◌, inl, inr, ◌==◌, Bool-cases, Option-cases,
  str_eq, eq_iff, if◌then◌else◌, String, Option, none, some, List, [], ◌∷◌, ◌++◌, In, here, there,
  List-cases, arith,
}
use tako_ai_core.Core.Effects.{returns, Outcome-cases}
use tako_ai_core.Core.Float.{Float}
use tako_ai_core.Core.Types.{
  Principal, Message, user, ChatResponse, RoutingDecision, Usage, no_usage, u32_max, new_request,
}
use tako_ai_core.Core.Traits.{LlmProvider, Router}
use tako_ai_core.Orchestrator.Types.{OrchInput, OrchOutput}
use tako_ai_core.Orchestrator.Single.{
  Texts, SingleAgent, tool_calls, add_usage, opening, output, ids, find_provider, pick_provider,
  call_provider, run_tools, turns, run,
}

module _ {W R Stream : Type 0} where
  find_provider-In :
      (id : String) (ps : List (LlmProvider W R Stream)) (p : LlmProvider W R Stream)
      → find_provider id ps ≡ some p
      → (p.id ≡ id) × In p ps
  unfolding find_provider
  find_provider-In id [] p h = cc
  find_provider-In id (q ∷ ps) p h = elim (Bool-cases (str_eq q.id id)) [
    | inl t ↦
        let same : q ≡ p = ground arith in
        let named : q.id ≡ id = (eq_iff _ _).0 t in
        (sym (ap (λ z. z.id) same) ∙ named, rw same here)
    | inr t ↦ let (n, i) = find_provider-In id ps p (rw (t, find_provider) at h) in (n, there i)
  ]

  -- the two ways to pick: without routing, and by the router's decision
  unrouted :
      (a : SingleAgent W R Stream) (principal : Principal) (messages : List Message)
      (p : LlmProvider W R Stream) (w w' : W)
      → (a.router ≡ none) ⊎ (a.candidates ≡ [])
      → pick_provider a principal messages w ≡ returns p w'
      → a.provider ≡ p
  unfolding pick_provider
  unrouted a principal messages p w w' (inl n) h = ground arith
  unrouted a principal messages p w w' (inr n) h = elim (Option-cases a.router) [
    | inl m ↦ ground arith
    | inr (router, m) ↦ ground arith
  ]

  routed :
      (a : SingleAgent W R Stream) (principal : Principal) (messages : List Message)
      (p c : LlmProvider W R Stream) (cs : List (LlmProvider W R Stream)) (router : Router W R)
      (w w' : W)
      → a.router ≡ some router
      → a.candidates ≡ c ∷ cs
      → pick_provider a principal messages w ≡ returns p w'
      → (decision : RoutingDecision R) × (router.route principal
            (new_request "router" messages)
            (ids (a.provider ∷ c ∷ cs))
            w
          ≡ returns decision w')
        × (find_provider decision.provider_id (a.provider ∷ c ∷ cs) ≡ some p)
  unfolding pick_provider
  routed a principal messages p c cs router w w' r l h =
      elim (Outcome-cases
        (router.route principal (new_request "router" messages) (ids (a.provider ∷ c ∷ cs)) w)) [
          | inr (e, v, x) ↦ absurd (ground arith)
          | inl (d, v, x) ↦
              elim (Option-cases (find_provider d.provider_id (a.provider ∷ c ∷ cs))) [
                | inl n ↦ absurd (ground arith)
                | inr (q, n) ↦ (d, ground arith, ground arith)
              ]
        ]

  -- A provider that is picked is the agent's own or one of its candidates; if there are a router
  -- and a candidate, it has the identifier that the router decided for.
  pub pick_provider-In :
      (a : SingleAgent W R Stream) (principal : Principal) (messages : List Message)
      (p : LlmProvider W R Stream) (w w' : W)
      → pick_provider a principal messages w ≡ returns p w'
      → In p (a.provider ∷ a.candidates)
        × ((router : Router W R)
            → a.router ≡ some router
            → (a.candidates ≡ [])
              ⊎ ((decision : RoutingDecision R) × (router.route principal
                      (new_request "router" messages)
                      (ids (a.provider ∷ a.candidates))
                      w
                    ≡ returns decision w')
                  × (p.id ≡ decision.provider_id)))
  unfolding pick_provider
  pick_provider-In a principal messages p w w' h = elim (Option-cases a.router) [
    | inl n ↦ (rw (unrouted a principal messages p w w' (inl n) h) here, λ router r. absurd cc)
    | inr (router, r) ↦ elim (List-cases a.candidates) [
      | inl n ↦ (rw (unrouted a principal messages p w w' (inr n) h) here, λ other o. inl n)
      | inr (c, cs, l) ↦
          let (d, x, f) = routed a principal messages p c cs router w w' r l h in
          let (named, i) = find_provider-In d.provider_id (a.provider ∷ c ∷ cs) p f in
          (rw l i, λ other o. let same : router ≡ other = cc in inr (d, rw (l, sym same) x, named))
    ]
  ]

abbrev pub SaturatedUsage : Usage → Type 0
SaturatedUsage u = (u.input_tokens ≤ u32_max) × (u.output_tokens ≤ u32_max)

pub add_usage-saturates : (t u : Usage) → SaturatedUsage (add_usage t u)
add_usage-saturates t u = (ground arith, ground arith)

module _ (F : Float) {W Stream : Type 0} (texts : Texts) (a : SingleAgent W F.Real Stream)
    (principal : Principal) where
  pub turns-bounds :
      (left step steps : ℕ) (messages : List Message) (usage : Usage) (final : Option Message)
      (w w' : W) (out : OrchOutput)
      → SaturatedUsage usage
      → turns F texts a principal left step messages usage steps final w ≡ returns out w'
      → (out.steps ≤ steps + left)
        × (steps ≤ out.steps)
        × (0 < left → steps < out.steps)
        × SaturatedUsage out.usage
  unfolding turns output
  turns-bounds zero step steps messages usage final w w' out s h =
      (ground arith, ground arith, λ z. absurd (omega arith), (ground arith, ground arith))
  turns-bounds (suc left) step steps messages usage final w w' out s h =
      elim (Outcome-cases (call_provider F a principal messages w)) [
        | inr (e, v, x) ↦ absurd (ground arith)
        | inl ((model, resp), v, x) ↦
            let s' = add_usage-saturates usage resp.usage in
            elim (List-cases (tool_calls resp.message.content)) [
              | inl n ↦
                  (ground arith, ground arith, λ z. ground arith, (ground arith, ground arith))
              | inr (c, cs, n) ↦
                  let messages' = messages ++ resp.message ∷ [] in
                  elim (Outcome-cases
                    (run_tools texts a.tools a.policy principal model messages' (c ∷ cs) v)) [
                      | inr (e, u, y) ↦ absurd (ground arith)
                      | inl (results, u, y) ↦
                          let (most, least, more, full) =
                            turns-bounds left (step + 1) (steps + 1)
                              (messages' ++ record { role = user; content = results } ∷ [])
                              (add_usage usage resp.usage)
                              (if step + 1 == a.max_steps then some resp.message else final) u w'
                              out s' (ground arith) in
                          (omega arith, omega arith, λ z. omega arith, full)
                    ]
            ]
      ]

  turns_answered :
      (left step steps : ℕ) (messages : List Message) (usage : Usage) (final : Option Message)
      (w w' : W) (model : String) (resp : ChatResponse)
      → 0 < left
      → call_provider F a principal messages w ≡ returns (model, resp) w'
      → tool_calls resp.message.content ≡ []
      → turns F texts a principal left step messages usage steps final w
        ≡ returns (output (some resp.message) (add_usage usage resp.usage) (steps + 1)) w'
  unfolding turns
  turns_answered zero step steps messages usage final w w' model resp z x n = absurd (omega arith)
  turns_answered (suc left) step steps messages usage final w w' model resp z x n = ground arith

  -- If the first answer asks for no tool, the run ends with it right after the provider call and its
  -- budget: nothing else is called, the policy engine included.
  pub run_first_answer :
      (input : OrchInput) (w w' : W) (model : String) (resp : ChatResponse)
      → 0 < a.max_steps
      → call_provider F a principal (opening input) w ≡ returns (model, resp) w'
      → tool_calls resp.message.content ≡ []
      → run F texts a principal input w
        ≡ returns (output (some resp.message) (add_usage no_usage resp.usage) 1) w'
  unfolding run
  run_first_answer input w w' model resp z x n =
      turns_answered a.max_steps 0 0 (opening input) no_usage none w w' model resp z x n
