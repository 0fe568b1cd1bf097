-- ===== src/Orchestrator/Conductor/Examples.antt =====
-- The theorems on the conductor at concrete inputs.
use tako_ai_core.Common.{
  string_append, str_eq, if◌then◌else◌, ℕ, ◌+◌, ◌≤◌, ◌<◌, ◌≡◌, refl, ◌↔◌, true, false, String, none,
  some, List, [], ◌∷◌, trim, trim_start_matches, trim_end_matches, sum_of, arith,
}
use tako_ai_core.Core.Effects.{returns}
use tako_ai_core.Core.Types.{assistant_message, as_text, no_usage}
use tako_ai_core.Core.Traits.{LlmProvider}
use tako_ai_core.Core.Examples.{naturals, alice, answer, good_provider, slow_provider}
use tako_ai_core.Orchestrator.Types.{OrchOutput}
use tako_ai_core.Orchestrator.Single.{add_usage, all_text}
use tako_ai_core.Orchestrator.Single.Examples.{task}
use tako_ai_core.Orchestrator.Conductor.Workers.{
  WorkerDispatch, Runtime, in_time, spawn, held, moves,
}
use tako_ai_core.Orchestrator.Conductor.Plan.{
  DispatchPlan, parsed, rejected, Formats, parse_dispatch_plan, byte_len, cut, short, unfenced,
  strip_prefix,
}
use tako_ai_core.Orchestrator.Conductor.{Conductor, answered_with, coordinate, opening, turns, run}
use tako_ai_core.Orchestrator.Conductor.Permits.{moves-capped}
use tako_ai_core.Orchestrator.Conductor.Slices.{Splits, short-Splits}
use tako_ai_core.Orchestrator.Conductor.Turns.{Asked, run-Asked, Babbles, run_malformed}

-- no call runs out of time
abbrev runtime : Runtime ℕ
runtime = record {
  within = λ limit call w. in_time (call w);
  display = λ e. "failed";
  show_duration = λ d. "120s";
}

abbrev workers : List (String × LlmProvider ℕ ℕ ℕ)
workers = ("code", good_provider) ∷ ("math", slow_provider) ∷ []

abbrev job : String → WorkerDispatch
job name = record { worker = name; task = "do it" }

-- two jobs for workers that there are, and one for nobody
abbrev jobs : List WorkerDispatch
jobs = job "code" ∷ job "poet" ∷ job "math" ∷ []

none_held : held (spawn workers jobs) ≤ 1
unfolding spawn sum_of
none_held = omega arith

moves-capped_example :
    held (moves naturals runtime none 5 alice 1 (λ w. w) 6 (spawn workers jobs) 0).0 ≤ 1
moves-capped_example =
    moves-capped naturals runtime none 5 alice 1 (λ w. w) 6 (spawn workers jobs) 0 none_held

-- 62 bytes, and the 57th is the first one of a character
abbrev accents : String
accents = "ééééééééééééééééééééééééééééééé"

accents_panic : short accents ≡ none
unfolding short byte_len cut trim trim_start_matches trim_end_matches
accents_panic = refl

short-Splits_example :
    (short accents ≡ none) ↔ ((60 < byte_len (trim accents)) × (Splits (trim accents) 57 → ⊥))
short-Splits_example = short-Splits accents

abbrev plan : DispatchPlan
plan = record { thought = none; dispatch = []; halt = true; final_answer = some "42" }

abbrev halting : Formats
halting = record { from_str = λ s. parsed plan; debug = λ s. s }

-- only this text is a plan
abbrev picky : Formats
picky = record {
  from_str = λ s. if str_eq s "{}" then parsed plan else rejected "expected value";
  debug = λ s. s;
}

abbrev conductor : Conductor ℕ ℕ ℕ
conductor = record {
  coordinator = good_provider;
  workers = workers;
  max_steps = 6;
  max_fanout = 4;
  worker_timeout = 5;
  fail_fast = false;
  budget = none;
  verifier = none;
}

halted :
    run naturals runtime halting (λ w. w) conductor alice task 0
    ≡ returns (some (answered_with "42" (add_usage no_usage answer.usage) 1)) 1
unfolding run turns coordinate parse_dispatch_plan
halted = refl

run-Asked_example :
    Asked naturals runtime halting (λ w. w) conductor alice 6 1 (opening conductor task) 0 "42" 1
    × (1 ≤ 6)
    × (assistant_message "42" ≡ assistant_message "42")
run-Asked_example =
    run-Asked naturals runtime halting (λ w. w) conductor alice task 0 1
      (answered_with "42" (add_usage no_usage answer.usage) 1) halted

-- the coordinator says "because" each time
always_babbles : Babbles naturals runtime picky (λ w. w) conductor alice
unfolding coordinate parse_dispatch_plan all_text as_text string_append unfenced strip_prefix trim
    trim_start_matches trim_end_matches
always_babbles messages w = (answer, w + 1, "expected value", refl, refl)

run_malformed_example :
    (out : OrchOutput) × (v : ℕ) × (run naturals runtime picky (λ w. w) conductor alice task 0
      ≡ returns (some out) v)
    × (out.steps ≡ 6)
    × Asked naturals runtime picky
        (λ w. w)
        conductor
        alice
        6
        6
        (opening conductor task)
        0
        out.text
        v
run_malformed_example =
    run_malformed naturals runtime picky (λ w. w) conductor alice task 0 always_babbles
