-- ===== src/Orchestrator/Conductor/Workers.antt =====
-- crates/tako-orchestrator/src/conductor.rs: the workers of one turn. Each is a task of its own that
-- waits for a permit of the semaphore; at every await the runtime may go on with any other task, so a
-- run is a sequence of moves that `pick` chooses. The semaphore is never closed. The timer is an argument.
-- Of the code that a task runs, the provider's call may panic.
use tako_ai_core.Common.{
  ℕ, zero, suc, ◌*◌, Bool, true, false, ltb, String, Option, none, some, List, [], ◌∷◌, map, length,
  get_elem?, modify, Dict, lookup, string_append, sum_of,
}
use tako_ai_core.Core.Error.{TakoError}
use tako_ai_core.Core.Effects.{Io, Outcome, returns, raises}
use tako_ai_core.Core.Float.{Float}
use tako_ai_core.Core.Types.{
  Principal, user_message, ChatRequest, new_request, ChatResponse, FinishReason,
}
use tako_ai_core.Core.Traits.{LlmProvider}
use tako_ai_core.Runtime.Budget.{BudgetTracker}
use tako_ai_core.Orchestrator.Single.{model_of, all_text, or_zero, budget_check, budget_record}

pub record WorkerDispatch : Type 0 where
  pub worker : String
  pub task : String

-- `Result<String, String>`
pub data WorkerOutcome : Type 0 where
  succeeded failed : String → WorkerOutcome

pub record WorkerResult : Type 0 where
  pub name : String
  pub task : String
  pub outcome : WorkerOutcome

-- `timeout(d, call)`: the call's outcome, or the time ran out, or the provider panicked, which ends
-- the task with the text of its JoinError
pub data Timed (W : Type 0) : Type 0 where
  in_time : Outcome W ChatResponse → Timed W
  elapsed : W → Timed W
  panicked : String → W → Timed W

-- what the workers use of other crates: the timer, and `to_string` of an error and of a duration
pub record Runtime (W : Type 0) : Type 0 where
  pub within : ℕ → Io W ChatResponse → W → Timed W
  pub display : TakoError → String
  pub show_duration : ℕ → String

-- `{:?}` of a finish reason
abbrev pub debug_reason : FinishReason → String
debug_reason FinishReason.stop = "Stop"
debug_reason FinishReason.length = "Length"
debug_reason FinishReason.tool_calls = "ToolCalls"
debug_reason FinishReason.content_filter = "ContentFilter"
debug_reason FinishReason.error = "Error"
debug_reason FinishReason.other = "Other"

abbrev pub by_reason : ChatResponse → WorkerOutcome
by_reason resp = elim resp.finish_reason [
  | FinishReason.stop ↦ succeeded (all_text resp.message.content)
  | FinishReason.tool_calls ↦ succeeded (all_text resp.message.content)
  | _ ↦
      failed
        (string_append "worker finished with unexpected reason: " (debug_reason resp.finish_reason))
]

abbrev pub unknown_worker : String → WorkerOutcome
unknown_worker name = failed (string_append "unknown worker `" (string_append name "`"))

-- Where a task stands: before its permit, before its budget check, before its call, before its
-- charge, or at its end. In the middle three it holds a permit. A task that panics lets go of its
-- permit and leaves no result of its own.
pub data Phase : Type 0 where
  queued permitted checked : Phase
  answered : ChatResponse → Phase
  finished : WorkerOutcome → Phase
  crashed : String → Phase

pub record Task (W R Stream : Type 0) : Type 0 where
  pub name : String
  pub task : String
  pub worker : Option (LlmProvider W R Stream)
  pub phase : Phase

abbrev pub permits : Phase → ℕ
permits queued = 0
permits (finished _) = 0
permits (crashed _) = 0
permits permitted = 1
permits checked = 1
permits (answered _) = 1

-- the result of a task whose handle gives an error
abbrev pub join_error : String → WorkerResult
join_error e = record {
  name = "<join>";
  task = "";
  outcome = failed (string_append "join error: " e);
}

module _ {W R Stream : Type 0} where
  abbrev pub at_phase : Task W R Stream → Phase → Task W R Stream
  at_phase t phase = record t { phase = phase }

  abbrev pub worker_request : LlmProvider W R Stream → String → ChatRequest R
  worker_request p task = new_request (model_of p.id) (user_message task ∷ [])

  -- one task for each entry of the plan
  unfoldable pub spawn :
      Dict (LlmProvider W R Stream) → List WorkerDispatch → List (Task W R Stream)
  spawn workers [] = []
  spawn workers (d ∷ ds) =
      record { name = d.worker; task = d.task; worker = lookup d.worker workers; phase = queued }
      ∷ spawn workers ds

  -- the permits that the tasks hold
  abbrev pub held : List (Task W R Stream) → ℕ
  held = sum_of λ t. permits t.phase

  -- Whether a task can go on: a queued one needs a permit unless its worker is unknown.
  abbrev pub can_move : ℕ → ℕ → Task W R Stream → Bool
  can_move max_fanout in_use t = elim t.phase [
    | queued ↦ elim t.worker [ none ↦ true | some _ ↦ ltb in_use max_fanout ]
    | finished _ ↦ false
    | crashed _ ↦ false
    | permitted ↦ true
    | checked ↦ true
    | answered _ ↦ true
  ]

  unfoldable pub movable : ℕ → ℕ → List (Task W R Stream) → List ℕ
  movable max_fanout in_use [] = []
  movable max_fanout in_use (t ∷ ts) =
      let later = map suc (movable max_fanout in_use ts) in
      elim (can_move max_fanout in_use t) [ true ↦ 0 ∷ later | false ↦ later ]

  -- the results in the order of the plan, as the handles are awaited; the handle of a task that is not
  -- at its end is still waited for
  unfoldable pub collect : List (Task W R Stream) → List WorkerResult
  collect [] = []
  collect (t ∷ ts) = elim t.phase [
    | finished outcome ↦ record { name = t.name; task = t.task; outcome = outcome } ∷ collect ts
    | crashed e ↦ join_error e ∷ collect ts
    | _ ↦ collect ts
  ]

-- the index that stands at a place of a list, or else the first
abbrev pub nth_or : ℕ → List ℕ → ℕ → ℕ
nth_or first others n = elim (get_elem? (first ∷ others) n) [ none ↦ first | some i ↦ i ]

abbrev pub timed_out : {W : Type 0} → Runtime W → ℕ → WorkerOutcome
timed_out runtime worker_timeout =
    failed (string_append "worker timed out after " (runtime.show_duration worker_timeout))

module _ (F : Float) {W Stream : Type 0} (runtime : Runtime W)
    (budget : Option (BudgetTracker W F.Real)) (worker_timeout : ℕ) (principal : Principal) where
  open F use {Real}

  -- a task's way to its next await
  unfoldable pub advance : Task W Real Stream → W → Task W Real Stream × W
  advance t w = elim t.worker [
    | none ↦ (at_phase t (finished (unknown_worker t.name)), w)
    | some p ↦
        let req = worker_request p t.task in
        let usd = p.estimate_cost_usd req in
        elim t.phase [
          | queued ↦ (at_phase t permitted, w)
          | permitted ↦ elim (budget_check F budget principal usd (or_zero req.max_tokens) w) [
            | returns _ w' ↦ (at_phase t checked, w')
            | raises e w' ↦ (at_phase t (finished (failed (runtime.display e))), w')
          ]
          | checked ↦ elim (runtime.within worker_timeout (p.chat principal req) w) [
            | in_time (returns resp w') ↦ (at_phase t (answered resp), w')
            | in_time (raises e w') ↦ (at_phase t (finished (failed (runtime.display e))), w')
            | elapsed w' ↦ (at_phase t (finished (timed_out runtime worker_timeout)), w')
            | panicked e w' ↦ (at_phase t (crashed e), w')
          ]
          | answered resp ↦ elim (budget_record F budget principal usd resp.usage w) [
            | returns _ w' ↦ (at_phase t (finished (by_reason resp)), w')
            | raises e w' ↦ (at_phase t (finished (failed (runtime.display e))), w')
          ]
          | finished outcome ↦ (t, w)
          | crashed e ↦ (t, w)
        ]
  ]

  unfoldable pub move : ℕ → List (Task W Real Stream) → W → List (Task W Real Stream) × W
  unfolding advance
  move i tasks w = elim (get_elem? tasks i) [
    | none ↦ (tasks, w)
    | some t ↦ let (t', w') = advance t w in (modify i (λ _. t') tasks, w')
  ]

  -- Moves while there are any, at most as many as the fuel.
  unfoldable pub moves :
      ℕ → (W → ℕ) → ℕ → List (Task W Real Stream) → W → List (Task W Real Stream) × W
  unfolding sum_of movable move
  moves max_fanout pick zero tasks w = (tasks, w)
  moves max_fanout pick (suc fuel) tasks w = elim (movable max_fanout (held tasks) tasks) [
    | [] ↦ (tasks, w)
    | first ∷ others ↦
        let (tasks', w') = move (nth_or first others (pick w)) tasks w in
        moves max_fanout pick fuel tasks' w'
  ]

  -- Four moves bring a task from its start to its end.
  unfoldable pub dispatch_workers :
      ℕ
      → (W → ℕ)
      → Dict (LlmProvider W Real Stream)
      → List WorkerDispatch
      → W
      → List WorkerResult × W
  unfolding moves spawn collect
  dispatch_workers max_fanout pick workers plan w =
      let (tasks, w') = moves max_fanout pick (4 * length plan) (spawn workers plan) w in
      (collect tasks, w')
