-- ===== src/Orchestrator/Examples.antt =====
-- The theorems on orchestrators at concrete inputs.
use tako_ai_core.Common.{ℕ, suc, ◌+◌, ◌≡◌, refl, none, [], ◌∷◌}
use tako_ai_core.Core.Effects.{returns}
use tako_ai_core.Core.Types.{Principal, user_message, assistant_message}
use tako_ai_core.Core.Examples.{naturals, alice}
use tako_ai_core.Orchestrator.Types.{OrchInput, OrchOutput}
use tako_ai_core.Orchestrator.SelfCaller.{SelfCaller, depth_key, run}
use tako_ai_core.Orchestrator.SelfCaller.Rounds.{Rounds, run-Rounds, run_ignores_depth}

abbrev task : OrchInput
task = record { messages = user_message "why?" ∷ []; system = none }

abbrev draft : OrchOutput
draft = record {
  text = "because";
  message = assistant_message "because";
  usage = record { input_tokens = 3; output_tokens = 4 };
  steps = 1;
}

-- an inner orchestrator that counts its runs, and a guard that never reaches the confidence
abbrev doubting : SelfCaller ℕ ℕ
doubting = record {
  inner = record { run = λ who input n. returns draft (n + 1) };
  max_depth = 3;
  min_confidence = 8;
  confidence = record {
    evaluate = λ who text n. returns 5 n;
    evaluate_streaming = λ who text n. returns none n;
  };
  revision_prompt = "try again";
}

abbrev deep : Principal
deep = record alice { metadata = (depth_key, "3") ∷ [] }

run-Rounds_example : Rounds naturals doubting deep 4 0 task 0 (run naturals doubting deep task 0)
run-Rounds_example = run-Rounds naturals doubting deep task 0

run_ignores_depth_example : run naturals doubting deep task 0 ≡ returns draft (0 + suc 3)
run_ignores_depth_example =
    run_ignores_depth naturals doubting deep draft 5 (λ p input n. refl) (λ p text n. refl) refl
      task 0
