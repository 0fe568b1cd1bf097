-- ===== src/Orchestrator/Single/Examples.antt =====
-- The theorems on the agent at concrete inputs.
use tako_ai_core.Common.{ℕ, ◌+◌, ◌≤◌, ◌<◌, ◌≡◌, refl, false, none, some, [], ◌∷◌}
use tako_ai_core.Core.Json.{null}
use tako_ai_core.Core.Effects.{returns}
use tako_ai_core.Core.Types.{user_message, tool_result, no_usage, allow}
use tako_ai_core.Core.Traits.{PolicyEngine, Router}
use tako_ai_core.Core.Examples.{naturals, alice, answer, good_provider, slow_provider}
use tako_ai_core.Orchestrator.Types.{OrchInput}
use tako_ai_core.Orchestrator.Single.{
  ToolRegistry, Texts, SingleAgent, Call, find_provider, pick_provider, model_of, call_provider,
  obey, consult, invoke_tool, run_tools, tool_calls, add_usage, opening, output, turns, run,
}
use tako_ai_core.Orchestrator.Single.Tools.{Ran, run_tools-Ran}
use tako_ai_core.Orchestrator.Single.Steps.{SaturatedUsage}
use tako_ai_core.Orchestrator.Single.Turned.{Turned, run-Turned}

abbrev pub texts : Texts
texts = record { hash_messages = λ ms. ""; hash_value = λ v. ""; display = λ e. [] }

abbrev pub registry : ToolRegistry ℕ
registry = record { schemas = λ n. ([], n); invoke = λ who name args n. returns null (n + 1) }

abbrev allowing : PolicyEngine ℕ
allowing = record { evaluate = λ who context n. returns allow (n + 1) }

abbrev to_good : Router ℕ ℕ
to_good = record {
  route =
      λ who req ids n. returns (record { provider_id = "good"; confidence = 1; reason = none }) n;
}

abbrev agent : SingleAgent ℕ ℕ ℕ
agent = record {
  provider = slow_provider;
  candidates = good_provider ∷ [];
  router = some to_good;
  tools = registry;
  max_steps = 4;
  temperature = none;
  max_tokens = none;
  policy = some allowing;
  budget = none;
}

abbrev pub task : OrchInput
task = record { messages = user_message "why?" ∷ []; system = none }

good_is_picked : pick_provider agent alice [] 0 ≡ returns good_provider 0
unfolding pick_provider find_provider
good_is_picked = refl

one_call : call_provider naturals agent alice (opening task) 0 ≡ returns ("", answer) 1
unfolding call_provider pick_provider find_provider model_of
one_call = refl

no_tool : tool_calls answer.message.content ≡ []
unfolding tool_calls
no_tool = refl

runs_once :
    run naturals texts agent alice task 0
    ≡ returns (output (some answer.message) (add_usage no_usage answer.usage) 1) 1
unfolding run turns call_provider pick_provider find_provider model_of tool_calls
runs_once = refl

run-Turned_example :
    Turned naturals texts agent alice 4 1 (opening task) 0 1
    × ((output (some answer.message) (add_usage no_usage answer.usage) 1).steps ≤ 4)
    × (0 < 4 → 0 < (output (some answer.message) (add_usage no_usage answer.usage) 1).steps)
    × SaturatedUsage (output (some answer.message) (add_usage no_usage answer.usage) 1).usage
unfolding output
run-Turned_example =
    run-Turned naturals texts agent alice task 0 1
      (output (some answer.message) (add_usage no_usage answer.usage) 1) runs_once

abbrev one_tool : Call
one_tool = record { id = "call-1"; name = "search"; args = null }

tool_runs :
    run_tools texts registry (some allowing) alice "" [] (one_tool ∷ []) 0
    ≡ returns (tool_result "call-1" null false ∷ []) 2
unfolding run_tools consult obey invoke_tool
tool_runs = refl

run_tools-Ran_example :
    Ran texts registry
      (some allowing)
      alice
      ""
      []
      (one_tool ∷ [])
      (tool_result "call-1" null false ∷ [])
      0
      2
run_tools-Ran_example =
    run_tools-Ran texts registry (some allowing) alice "" [] (one_tool ∷ [])
      (tool_result "call-1" null false ∷ []) 0 2 tool_runs
