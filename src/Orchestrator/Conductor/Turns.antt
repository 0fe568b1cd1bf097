-- ===== src/Orchestrator/Conductor/Turns.antt =====
-- How a run of the coordinator in crates/tako-orchestrator/src/conductor.rs ends.
use tako_ai_core.Common.{
  ℕ, zero, suc, ◌+◌, ◌≤◌, ◌≡◌, refl, sym, subst, ◌⊎◌, inl, inr, true, false, Bool-cases, String,
  none, some, List, [], ◌∷◌, ◌++◌, List-cases, arith,
}
use tako_ai_core.Core.Effects.{ok, Result-cases, Outcome, returns, Outcome-cases, bind-returns}
use tako_ai_core.Core.Float.{Float}
use tako_ai_core.Core.Types.{
  Principal, Message, user_message, assistant_message, new_request, ChatResponse, Usage, no_usage,
}
use tako_ai_core.Orchestrator.Types.{OrchInput, OrchOutput}
use tako_ai_core.Orchestrator.Single.{model_of, all_text, add_usage, budget_check, budget_record}
use tako_ai_core.Orchestrator.Conductor.Workers.{WorkerDispatch, Runtime, dispatch_workers}
use tako_ai_core.Orchestrator.Conductor.Plan.{
  DispatchPlan, Parsed, parsed, rejected, Formats, parse_dispatch_plan,
}
use tako_ai_core.Orchestrator.Conductor.{
  Conductor, answered_with, or_text, retry_message, nudge, opening, last_text, coordinate, fold_in,
  turns, run,
}

Parsed-cases :
    (p : Parsed) → ((e : String) × (p ≡ rejected e)) ⊎ ((plan : DispatchPlan) × (p ≡ parsed plan))
Parsed-cases (rejected e) = inl (e, refl)
Parsed-cases (parsed plan) = inr (plan, refl)

module _ (F : Float) {W Stream : Type 0} (runtime : Runtime W) (formats : Formats) (pick : W → ℕ)
    (c : Conductor W F.Real Stream) (principal : Principal) where
  -- One call of the coordinator, after its budget check and before its charge.
  pub record Asks (messages : List Message) (resp : ChatResponse) (w w' : W) : Type 0 where
    pub checked : W
    pub checks :
        budget_check F c.budget principal
          (c.coordinator.estimate_cost_usd (new_request (model_of c.coordinator.id) messages))
          0
          w
        ≡ returns tt checked
    pub answered : W
    pub answers :
        c.coordinator.chat principal (new_request (model_of c.coordinator.id) messages) checked
        ≡ returns resp answered
    pub records :
        budget_record F c.budget principal
          (c.coordinator.estimate_cost_usd (new_request (model_of c.coordinator.id) messages))
          resp.usage
          answered
        ≡ returns tt w'

  abbrev pub text_of : ChatResponse → String
  text_of resp = all_text resp.message.content

  -- A run with so many steps left, by the number of its coordinator calls, and the text it ends with:
  -- what it says to each answer, from one call to the next.
  pub data Asked : ℕ → ℕ → List Message → W → String → W → Type 0 where
    used_up : {messages : List Message} {w : W} → Asked zero zero messages w (last_text messages) w
    halts :
        {left : ℕ} {messages : List Message} {w w' : W} (resp : ChatResponse) (plan : DispatchPlan)
        → Asks messages resp w w'
        → parse_dispatch_plan formats (text_of resp) ≡ parsed plan
        → plan.halt ≡ true
        → Asked (suc left) 1 messages w (or_text plan.final_answer (text_of resp)) w'
    malformed :
        {left calls : ℕ} {messages : List Message} {w w' v : W} {text : String}
        (resp : ChatResponse) (error : String)
        → Asks messages resp w w'
        → parse_dispatch_plan formats (text_of resp) ≡ rejected error
        → Asked left calls ((messages ++ resp.message ∷ []) ++ retry_message error ∷ []) w' text v
        → Asked (suc left) (suc calls) messages w text v
    idle :
        {left calls : ℕ} {messages : List Message} {w w' v : W} {text : String}
        (resp : ChatResponse) (plan : DispatchPlan)
        → Asks messages resp w w'
        → parse_dispatch_plan formats (text_of resp) ≡ parsed plan
        → plan.halt ≡ false
        → plan.dispatch ≡ []
        → Asked left calls ((messages ++ resp.message ∷ []) ++ nudge ∷ []) w' text v
        → Asked (suc left) (suc calls) messages w text v
    dispatched :
        {left calls : ℕ} {messages : List Message} {w w' v : W} {text : String}
        (resp : ChatResponse) (plan : DispatchPlan) (d : WorkerDispatch) (ds : List WorkerDispatch)
        (summary : String)
        → Asks messages resp w w'
        → parse_dispatch_plan formats (text_of resp) ≡ parsed plan
        → plan.halt ≡ false
        → plan.dispatch ≡ d ∷ ds
        → fold_in F runtime formats pick c principal
            (dispatch_workers F runtime c.budget c.worker_timeout principal c.max_fanout pick
              c.workers
              (d ∷ ds)
              w').0
          ≡ ok (some summary)
        → Asked left calls
            ((messages ++ resp.message ∷ []) ++ user_message summary ∷ [])
            (dispatch_workers F runtime c.budget c.worker_timeout principal c.max_fanout pick
              c.workers
              (d ∷ ds)
              w').1
            text
            v
        → Asked (suc left) (suc calls) messages w text v

  Asked-few :
      (left calls : ℕ) (messages : List Message) (w v : W) (text : String)
      → Asked left calls messages w text v
      → calls ≤ left
  Asked-few zero zero messages w v text used_up = omega arith
  Asked-few zero (suc calls) messages w v text asked = elim asked [ ]
  Asked-few (suc left) zero messages w v text asked = elim asked [ ]
  Asked-few (suc left) (suc zero) messages w v text (halts resp plan k p h) = omega arith
  Asked-few (suc left) (suc calls) messages w v text (malformed resp e k p rest) =
      omega (arith, Asked-few left calls _ _ _ _ rest)
  Asked-few (suc left) (suc calls) messages w v text (idle resp plan k p h n rest) =
      omega (arith, Asked-few left calls _ _ _ _ rest)
  Asked-few (suc left) (suc calls) messages w v text (dispatched resp plan d ds s k p h q f rest) =
      omega (arith, Asked-few left calls _ _ _ _ rest)

  same_ask :
      (messages : List Message) (r resp : ChatResponse) (w v w' : W)
      → ◌≡◌ {A = Outcome W ChatResponse} (returns r v) (returns resp w')
      → Asks messages r w v
      → Asks messages resp w w'
  same_ask messages r resp w v w' h asks =
      let same : r ≡ resp = cc in
      let ends : v ≡ w' = cc in
      subst (λ z. Asks messages resp w z) ends (subst (λ z. Asks messages z w v) same asks)

  coordinate-Asks :
      (messages : List Message) (resp : ChatResponse) (w w' : W)
      → coordinate F runtime formats pick c principal messages w ≡ returns resp w'
      → Asks messages resp w w'
  unfolding coordinate
  coordinate-Asks messages resp w w' h =
      let req = new_request (model_of c.coordinator.id) messages in
      let usd = c.coordinator.estimate_cost_usd req in
      let (_, checked, checks, h1) =
        bind-returns (budget_check F c.budget principal usd 0) _ w w' resp h in
      let (reply, answered, answers, h2) =
        bind-returns (c.coordinator.chat principal req) _ checked w' resp h1 in
      let (_, recorded, records, h3) =
        bind-returns (budget_record F c.budget principal usd reply.usage) _ answered w' resp h2 in
      same_ask messages reply resp w recorded w' h3 (record {
        checked = checked;
        checks = checks;
        answered = answered;
        answers = answers;
        records = records;
      })

  turns-Asked :
      (left : ℕ) (messages : List Message) (usage : Usage) (steps : ℕ) (w v : W) (out : OrchOutput)
      → turns F runtime formats pick c principal left messages usage steps w ≡ returns (some out) v
      → (calls : ℕ) × (out.steps ≡ steps + calls)
        × (out.message ≡ assistant_message out.text)
        × Asked left calls messages w out.text v
  unfolding turns
  turns-Asked zero messages usage steps w v out h =
      let is_out : answered_with (last_text messages) usage steps ≡ out = ground arith in
      let same : w ≡ v = ground arith in
      rw (sym is_out) (0, omega arith, refl, rw (sym same) used_up)
  turns-Asked (suc left) messages usage steps w v out h =
      elim (Outcome-cases (coordinate F runtime formats pick c principal messages w)) [
        | inr (e, w', x) ↦ absurd (ground arith)
        | inl (resp, w', x) ↦
            let raw = text_of resp in
            let asks = coordinate-Asks messages resp w w' x in
            let usage' = add_usage usage resp.usage in
            let messages' = messages ++ resp.message ∷ [] in
            elim (Parsed-cases (parse_dispatch_plan formats raw)) [
              | inl (error, y) ↦
                  let (calls, sum, says, asked) =
                    turns-Asked left (messages' ++ retry_message error ∷ []) usage' (steps + 1) w' v
                      out (rw (turns, x, y) at h) in
                  (suc calls, omega (arith, sum), says, malformed resp error asks y asked)
              | inr (plan, y) ↦ elim (Bool-cases plan.halt) [
                | inl halting ↦
                    let is_out : answered_with (or_text plan.final_answer raw) usage' (steps + 1)
                        ≡ out =
                      ground arith in
                    let same : w' ≡ v = ground arith in
                    rw (sym is_out) (
                      1,
                      omega arith,
                      refl,
                      rw (same) at (halts {left = left} resp plan asks y halting),
                    )
                | inr goes_on ↦ elim (List-cases plan.dispatch) [
                  | inl nobody ↦
                      let (calls, sum, says, asked) =
                        turns-Asked left (messages' ++ nudge ∷ []) usage' (steps + 1) w' v out
                          (rw (turns, x, y, goes_on, nobody) at h) in
                      (
                        suc calls,
                        omega (arith, sum),
                        says,
                        idle resp plan asks y goes_on nobody asked,
                      )
                  | inr (d, ds, somebody) ↦
                      let goes = rw (turns, x, y, goes_on, somebody) at h in
                      let (results, w'') =
                        dispatch_workers F runtime c.budget c.worker_timeout principal c.max_fanout
                          pick c.workers (d ∷ ds) w' in
                      elim (Result-cases (fold_in F runtime formats pick c principal results)) [
                        | inr (e, z) ↦ absurd (let failed = rw (z) at goes in ground arith)
                        | inl (none, z) ↦ absurd (let panics = rw (z) at goes in ground arith)
                        | inl (some summary, z) ↦
                            let (calls, sum, says, asked) =
                              turns-Asked left (messages' ++ user_message summary ∷ []) usage'
                                (steps + 1) w'' v out (rw (z) at goes) in
                            (
                              suc calls,
                              omega (arith, sum),
                              says,
                              dispatched resp plan d ds summary asks y goes_on somebody z asked,
                            )
                      ]
                ]
              ]
            ]
      ]

  -- A run that answers has asked the coordinator as often as its `steps` says, at most max_steps times:
  -- each call stands between its budget check and its charge, and is answered by the next. It ended
  -- with a plan that the coordinator wrote in its last answer and that halts, with the plan's answer or
  -- else the whole text, or with the coordinator's last text after all max_steps calls.
  pub run-Asked :
      (input : OrchInput) (w v : W) (out : OrchOutput)
      → run F runtime formats pick c principal input w ≡ returns (some out) v
      → Asked c.max_steps out.steps (opening c input) w out.text v
        × (out.steps ≤ c.max_steps)
        × (out.message ≡ assistant_message out.text)
  unfolding run
  run-Asked input w v out h =
      let (calls, sum, says, asked) =
        turns-Asked c.max_steps (opening c input) no_usage 0 w v out h in
      let same : calls ≡ out.steps = omega (arith, sum) in
      let all : Asked c.max_steps out.steps (opening c input) w out.text v =
        subst (λ n. Asked c.max_steps n (opening c input) w out.text v) same asked in
      (all, Asked-few c.max_steps out.steps (opening c input) w v out.text all, says)

  -- The coordinator answers, but with a text that is no plan.
  abbrev pub Babbles : Type 0
  Babbles =
      (messages : List Message) (w : W)
      → (resp : ChatResponse) × (w' : W) × (e : String) × (coordinate F runtime formats pick c
            principal messages w
          ≡ returns resp w')
        × (parse_dispatch_plan formats (text_of resp) ≡ rejected e)

  turns_malformed :
      (left : ℕ) (messages : List Message) (usage : Usage) (steps : ℕ) (w : W)
      → Babbles
      → (out : OrchOutput) × (v : W) × (turns F runtime formats pick c principal left messages usage
            steps w
          ≡ returns (some out) v)
        × (out.steps ≡ steps + left)
        × Asked left left messages w out.text v
  unfolding turns
  turns_malformed zero messages usage steps w babbles =
      (answered_with (last_text messages) usage steps, w, refl, omega arith, used_up)
  turns_malformed (suc left) messages usage steps w babbles =
      let (resp, w', e, x, y) = babbles messages w in
      let (out, v, ends, all_used, asked) =
        turns_malformed left ((messages ++ resp.message ∷ []) ++ retry_message e ∷ [])
          (add_usage usage resp.usage) (steps + 1) w' babbles in
      (
        out,
        v,
        rw (turns, x, y) ends,
        omega (arith, all_used),
        malformed resp e (coordinate-Asks messages resp w w' x) y asked,
      )

  -- If the coordinator always answers, and never with a text that is a plan, the run calls it exactly
  -- max_steps times, each time with a retry message about the last answer, and answers all the same.
  pub run_malformed :
      (input : OrchInput) (w : W)
      → Babbles
      → (out : OrchOutput) × (v : W) × (run F runtime formats pick c principal input w
          ≡ returns (some out) v)
        × (out.steps ≡ c.max_steps)
        × Asked c.max_steps c.max_steps (opening c input) w out.text v
  unfolding run
  run_malformed input w babbles =
      let (out, v, ends, all_used, asked) =
        turns_malformed c.max_steps (opening c input) no_usage 0 w babbles in
      (out, v, ends, omega (arith, all_used), asked)
