-- ===== src/Orchestrator/Trinity/Steps.antt =====
-- The turns of crates/tako-orchestrator/src/trinity.rs.
use tako_ai_core.Common.{
  ℕ, zero, suc, ◌+◌, ◌≤◌, ◌<◌, ◌≡◌, inl, inr, ◌==◌, if◌then◌else◌, Option, none, some, List, [],
  ◌∷◌, ◌++◌, List-cases, arith,
}
use tako_ai_core.Core.Effects.{returns, Outcome-cases}
use tako_ai_core.Core.Float.{Float}
use tako_ai_core.Core.Types.{Principal, Message, user, Usage, no_usage}
use tako_ai_core.Orchestrator.Types.{OrchInput, OrchOutput}
use tako_ai_core.Orchestrator.Single.{Texts, tool_calls, add_usage, output, opening, run_tools}
use tako_ai_core.Orchestrator.Single.Steps.{SaturatedUsage, add_usage-saturates}
use tako_ai_core.Orchestrator.Trinity.{Trinity, call_role, turns, run}

module _ (F : Float) {W Stream : Type 0} (texts : Texts) (t : Trinity W F.Real Stream)
    (principal : Principal) where
  turns-bounds :
      (left step steps : ℕ) (messages : List Message) (usage : Usage) (final : Option Message)
      (w w' : W) (out : OrchOutput)
      → SaturatedUsage usage
      → turns F texts t principal left step messages usage steps final w ≡ returns out w'
      → (out.steps ≤ steps + left)
        × (steps ≤ out.steps)
        × (0 < left → steps < out.steps)
        × SaturatedUsage out.usage
  unfolding turns output
  turns-bounds zero step steps messages usage final w w' out s h =
      (ground arith, ground arith, λ z. absurd (omega arith), (ground arith, ground arith))
  turns-bounds (suc left) step steps messages usage final w w' out s h =
      elim (Outcome-cases (call_role F t principal messages w)) [
        | inr (e, v, x) ↦ absurd (ground arith)
        | inl ((model, resp), v, x) ↦
            let s' = add_usage-saturates usage resp.usage in
            elim (List-cases (tool_calls resp.message.content)) [
              | inl n ↦
                  (ground arith, ground arith, λ z. ground arith, (ground arith, ground arith))
              | inr (c, cs, n) ↦
                  let messages' = messages ++ resp.message ∷ [] in
                  elim (Outcome-cases
                    (run_tools texts t.tools t.policy principal model messages' (c ∷ cs) v)) [
                      | inr (e, u, y) ↦ absurd (ground arith)
                      | inl (results, u, y) ↦
                          let (most, least, more, full) =
                            turns-bounds left (step + 1) (steps + 1)
                              (messages' ++ record { role = user; content = results } ∷ [])
                              (add_usage usage resp.usage)
                              (if step + 1 == t.max_steps then some resp.message else final) u w'
                              out s' (ground arith) in
                          (omega arith, omega arith, λ z. omega arith, full)
                    ]
            ]
      ]

  -- A run that answers has called a provider at most `max_steps` times, at least once if any call is
  -- allowed, and its token sums fit into 32 bits.
  pub run-bounds :
      (input : OrchInput) (w w' : W) (out : OrchOutput)
      → run F texts t principal input w ≡ returns out w'
      → (out.steps ≤ t.max_steps) × (0 < t.max_steps → 0 < out.steps) × SaturatedUsage out.usage
  unfolding run
  run-bounds input w w' out h =
      let (most, least, more, full) =
        turns-bounds t.max_steps 0 0 (opening input) no_usage none w w' out
          (omega arith, omega arith) h in
      (omega arith, more, full)
