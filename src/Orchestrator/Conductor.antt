-- ===== src/Orchestrator/Conductor.antt =====
-- crates/tako-orchestrator/src/conductor.rs: the builder and the coordinator's loop. Spans are left
-- out. A panic of the summary gives `none`.
pub mod Workers
pub mod Plan
pub mod Permits
pub mod Ends
pub mod Dispatch
pub mod Slices
pub mod Turns
pub mod Examples
use tako_ai_core.Common.{
  ℕ, zero, suc, ◌+◌, ◌*◌, ◌^◌, Bool, true, false, not, str_eq, ltb, if◌then◌else◌, String, Option,
  none, some, List, [], ◌∷◌, ◌++◌, Dict, string_append,
}
use tako_ai_core.Core.Error.{TakoError, lit, invalid, provider_error}
use tako_ai_core.Core.Effects.{Result, ok, err, Io, returns, raises, ◌>>=◌, pure}
use tako_ai_core.Core.Float.{Float}
use tako_ai_core.Core.Types.{
  Principal, Role, Message, system_message, user_message, assistant_message, new_request,
  ChatResponse, Usage, no_usage,
}
use tako_ai_core.Core.Traits.{LlmProvider, Verifier}
use tako_ai_core.Runtime.Budget.{BudgetTracker}
use tako_ai_core.Orchestrator.Types.{OrchInput, OrchOutput}
use tako_ai_core.Orchestrator.Single.{
  model_of, all_text, add_usage, or_zero, budget_check, budget_record,
}
use tako_ai_core.Orchestrator.AbMcts.Search.{first_text}
use tako_ai_core.Orchestrator.Conductor.Workers.{
  WorkerDispatch, WorkerOutcome, succeeded, failed, WorkerResult, Runtime, dispatch_workers,
}
use tako_ai_core.Orchestrator.Conductor.Plan.{
  DispatchPlan, Parsed, parsed, rejected, Formats, parse_dispatch_plan, render_worker_results,
  system_prompt,
}

-- `worker_timeout` is in nanoseconds. `verifier` is read by the streaming run only.
pub record Conductor (W R Stream : Type 0) : Type 0 where
  pub coordinator : LlmProvider W R Stream
  pub workers : Dict (LlmProvider W R Stream)
  pub max_steps : ℕ
  pub max_fanout : ℕ
  pub worker_timeout : ℕ
  pub fail_fast : Bool
  pub budget : Option (BudgetTracker W R)
  pub verifier : Option (Verifier W R)

pub record ConductorBuilder (W R Stream : Type 0) : Type 0 where
  pub coordinator : Option (LlmProvider W R Stream)
  pub workers : Dict (LlmProvider W R Stream)
  pub max_steps : Option ℕ
  pub max_fanout : Option ℕ
  pub worker_timeout : Option ℕ
  pub fail_fast : Option Bool
  pub budget : Option (BudgetTracker W R)
  pub verifier : Option (Verifier W R)

-- the methods of the builder, with their arguments
pub data Setting (W R Stream : Type 0) : Type 0 where
  coordinator : LlmProvider W R Stream → Setting W R Stream
  worker : String → LlmProvider W R Stream → Setting W R Stream
  max_steps max_fanout worker_timeout : ℕ → Setting W R Stream
  fail_fast : Bool → Setting W R Stream
  budget : BudgetTracker W R → Setting W R Stream
  verifier : Verifier W R → Setting W R Stream

abbrev or_default : {A : Type 0} → Option A → A → A
or_default none a = a
or_default (some b) a = b

abbrev at_least_one : ℕ → ℕ
at_least_one n = if ltb n 1 then 1 else n

module _ {W R Stream : Type 0} where
  -- `workers.insert`, which replaces
  unfoldable pub without : String → Dict (LlmProvider W R Stream) → Dict (LlmProvider W R Stream)
  without name [] = []
  without name (w ∷ ws) = if str_eq w.0 name then without name ws else w ∷ without name ws

  abbrev pub builder : ConductorBuilder W R Stream
  builder = record {
    coordinator = none;
    workers = [];
    max_steps = none;
    max_fanout = none;
    worker_timeout = none;
    fail_fast = none;
    budget = none;
    verifier = none;
  }

  unfoldable pub set :
      ConductorBuilder W R Stream → Setting W R Stream → ConductorBuilder W R Stream
  unfolding without
  set b (coordinator p) = record b { coordinator = some p }
  set b (worker name p) = record b { workers = (name, p) ∷ without name b.workers }
  set b (max_steps n) = record b { max_steps = some (at_least_one n) }
  set b (max_fanout n) = record b { max_fanout = some (at_least_one n) }
  set b (worker_timeout d) = record b { worker_timeout = some d }
  set b (fail_fast f) = record b { fail_fast = some f }
  set b (budget t) = record b { budget = some t }
  set b (verifier v) = record b { verifier = some v }

  unfoldable pub build : ConductorBuilder W R Stream → Result (Conductor W R Stream)
  build b = elim b.coordinator [
    | none ↦ err (invalid (lit "ConductorBuilder: coordinator is required" ∷ []))
    | some p ↦ ok record {
      coordinator = p;
      workers = b.workers;
      max_steps = or_default b.max_steps 6;
      max_fanout = or_default b.max_fanout 4;
      worker_timeout = or_default b.worker_timeout (120 * 10 ^ 9);
      fail_fast = or_default b.fail_fast false;
      budget = b.budget;
      verifier = b.verifier;
    }
  ]

-- the first error among the results
unfoldable pub first_error : List WorkerResult → Option String
first_error [] = none
first_error (r ∷ rs) = elim r.outcome [ failed error ↦ some error | succeeded _ ↦ first_error rs ]

-- `messages.iter().rev().find(..)`: the last message of the assistant
unfoldable pub last_assistant : List Message → Option Message
last_assistant [] = none
last_assistant (m ∷ ms) = elim (last_assistant ms) [
  | some later ↦ some later
  | none ↦ elim m.role [ Role.assistant ↦ some m | _ ↦ none ]
]

unfoldable pub last_text : List Message → String
unfolding last_assistant first_text
last_text messages = elim (last_assistant messages) [
  | none ↦ ""
  | some m ↦ elim (first_text m.content) [ none ↦ "" | some s ↦ s ]
]

abbrev pub answered_with : String → Usage → ℕ → OrchOutput
answered_with text usage steps = record {
  text = text;
  message = assistant_message text;
  usage = usage;
  steps = steps;
}

abbrev pub or_text : Option String → String → String
or_text none raw = raw
or_text (some s) raw = s

abbrev pub retry_message : String → Message
retry_message error = user_message (
    string_append "Your previous output did not match the dispatch JSON schema: "
      (string_append error ". Reply with a single valid JSON object."))

abbrev pub nudge : Message
nudge =
    user_message
      "You returned an empty dispatch with halt=false. Either dispatch a worker or halt with a final answer."

abbrev pub opening : {W R Stream : Type 0} → Conductor W R Stream → OrchInput → List Message
opening c input = elim input.system [
  | some extra ↦ system_message (system_prompt c.workers) ∷ system_message extra ∷ input.messages
  | none ↦ system_message (system_prompt c.workers) ∷ input.messages
]

module _ (F : Float) {W Stream : Type 0} (runtime : Runtime W) (formats : Formats) (pick : W → ℕ)
    (c : Conductor W F.Real Stream) (principal : Principal) where
  -- the coordinator's call with its budget
  unfoldable pub coordinate : List Message → Io W ChatResponse
  coordinate messages =
      let req = new_request (model_of c.coordinator.id) messages in
      let usd = c.coordinator.estimate_cost_usd req in
      budget_check F c.budget principal usd (or_zero req.max_tokens) >>= λ _.
      c.coordinator.chat principal req >>= λ resp.
      budget_record F c.budget principal usd resp.usage >>= λ _. pure resp

  -- what the results of a dispatch lead to: an error, a panic, or the summary
  unfoldable pub fold_in : List WorkerResult → Result (Option String)
  unfolding first_error
  fold_in results =
      let summary = ok (render_worker_results formats results) in
      if c.fail_fast
      then elim (first_error results) [
        | none ↦ summary
        | some error ↦ err (
            provider_error c.coordinator.id (model_of c.coordinator.id)
              (lit "Conductor worker failed (fail_fast): " ∷ lit error ∷ []))
      ]
      else summary

  -- the `for` loop, by the steps that are left
  unfoldable pub turns : ℕ → List Message → Usage → ℕ → Io W (Option OrchOutput)
  unfolding coordinate fold_in last_text
  turns zero messages usage steps w =
      returns (some (answered_with (last_text messages) usage steps)) w
  turns (suc left) messages usage steps w = elim (coordinate messages w) [
    | raises e w' ↦ raises e w'
    | returns resp w' ↦
        let usage' = add_usage usage resp.usage in
        let raw_text = all_text resp.message.content in
        let messages' = messages ++ resp.message ∷ [] in
        elim (parse_dispatch_plan formats raw_text) [
          | rejected error ↦
              turns left (messages' ++ retry_message error ∷ []) usage' (steps + 1) w'
          | parsed plan ↦ elim plan.halt [
            | true ↦
                returns
                  (some (answered_with (or_text plan.final_answer raw_text) usage' (steps + 1))) w'
            | false ↦ elim plan.dispatch [
              | [] ↦ turns left (messages' ++ nudge ∷ []) usage' (steps + 1) w'
              | d ∷ ds ↦
                  let (results, w'') =
                    dispatch_workers F runtime c.budget c.worker_timeout principal c.max_fanout pick
                      c.workers (d ∷ ds) w' in
                  elim (fold_in results) [
                    | err e ↦ raises e w''
                    | ok none ↦ returns none w''
                    | ok (some summary) ↦
                        turns left (messages' ++ user_message summary ∷ []) usage' (steps + 1) w''
                  ]
            ]
          ]
        ]
  ]

  unfoldable pub run : OrchInput → Io W (Option OrchOutput)
  unfolding turns
  run input = turns c.max_steps (opening c input) no_usage 0
