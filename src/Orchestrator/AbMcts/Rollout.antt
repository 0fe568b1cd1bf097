-- ===== src/Orchestrator/AbMcts/Rollout.antt =====
-- crates/tako-orchestrator/src/ab_mcts.rs: the orchestrator's fields and builder, the provider of a
-- rollout, and a rollout.
use tako_ai_core.Common.{
  ℕ, zero, suc, ◌+◌, ◌==◌, if◌then◌else◌, String, Option, none, some, List, [], ◌∷◌, ◌++◌,
}
use tako_ai_core.Core.Error.{lit, invalid}
use tako_ai_core.Core.Effects.{Io, returns, raises, pure, fail, ◌>>=◌}
use tako_ai_core.Core.Types.{Principal, Message, user, new_request, ChatResponse, Usage, no_usage}
use tako_ai_core.Core.Traits.{LlmProvider, PolicyEngine, Router, Verifier}
use tako_ai_core.Orchestrator.Single.{
  ToolRegistry, Texts, model_of, tool_calls, all_text, add_usage, or_empty, ids, find_provider,
  run_tools,
}

pub record AbMcts (W R Stream : Type 0) : Type 0 where
  pub provider : LlmProvider W R Stream
  pub candidates : List (LlmProvider W R Stream)
  pub router : Option (Router W R)
  pub verifier : Verifier W R
  pub tools : ToolRegistry W
  pub policy : Option (PolicyEngine W)
  pub default_temperature : Option R
  pub default_max_tokens : Option ℕ
  pub max_iterations : ℕ
  pub branching_factor : ℕ
  pub max_steps_per_rollout : ℕ
  pub temperature : R
  pub min_confidence : R

pub record RolloutResult : Type 0 where
  pub message : Message
  pub text : String
  pub usage : Usage
  pub steps : ℕ

abbrev pub rollout_result : Option Message → Usage → ℕ → RolloutResult
rollout_result last usage steps = record {
  message = or_empty last;
  text = all_text (or_empty last).content;
  usage = usage;
  steps = steps;
}

module _ {W R Stream : Type 0} where
  abbrev pub found : String → Option (LlmProvider W R Stream) → Io W (LlmProvider W R Stream)
  found id none = fail (invalid (lit "AbMcts router returned unknown provider id: " ∷ lit id ∷ []))
  found id (some p) = pure p

  -- unlike the single agent's, the router is asked even when there is no candidate
  unfoldable pub pick_rollout_provider :
      AbMcts W R Stream → Principal → List Message → Io W (LlmProvider W R Stream)
  pick_rollout_provider a principal messages = elim a.router [
    | none ↦ pure a.provider
    | some router ↦
        router.route principal (new_request "router" messages) (ids (a.provider ∷ a.candidates))
        >>= λ decision.
            found decision.provider_id
              (find_provider decision.provider_id (a.provider ∷ a.candidates))
  ]

  -- one provider call of a rollout
  unfoldable pub rollout_chat :
      AbMcts W R Stream → LlmProvider W R Stream → Principal → List Message → Io W ChatResponse
  rollout_chat a provider principal messages w =
      let (tool_schemas, w') = a.tools.schemas w in
      provider.chat principal
        (record (new_request (model_of provider.id) messages) {
          tools = tool_schemas;
          temperature = some a.temperature;
          max_tokens = a.default_max_tokens;
        })
        w'

  -- the `for` loop of a rollout, by the steps that are left
  unfoldable pub rollout_turns :
      Texts
      → AbMcts W R Stream
      → LlmProvider W R Stream
      → Principal
      → ℕ
      → ℕ
      → List Message
      → Usage
      → ℕ
      → Option Message
      → Io W RolloutResult
  rollout_turns texts a provider principal zero step messages usage steps last w =
      returns (rollout_result last usage steps) w
  rollout_turns texts a provider principal (suc left) step messages usage steps last w =
      elim (rollout_chat a provider principal messages w) [
        | raises e w' ↦ raises e w'
        | returns resp w' ↦
            let usage' = add_usage usage resp.usage in
            let messages' = messages ++ resp.message ∷ [] in
            elim (tool_calls resp.message.content) [
              | [] ↦ returns (rollout_result (some resp.message) usage' (steps + 1)) w'
              | c ∷ cs ↦
                  elim (run_tools texts a.tools a.policy principal (model_of provider.id) messages'
                    (c ∷ cs) w') [
                      | raises e w'' ↦ raises e w''
                      | returns results w'' ↦
                          rollout_turns texts a provider principal left (step + 1)
                            (messages' ++ record { role = user; content = results } ∷ []) usage'
                            (steps + 1)
                            (if step + 1 == a.max_steps_per_rollout
                              then some resp.message
                              else last)
                            w''
                    ]
            ]
      ]

  unfoldable pub rollout :
      Texts
      → AbMcts W R Stream
      → Principal
      → LlmProvider W R Stream
      → List Message
      → Io W RolloutResult
  unfolding rollout_turns
  rollout texts a principal provider messages =
      rollout_turns texts a provider principal a.max_steps_per_rollout 0 messages no_usage 0 none
