-- ===== src/Orchestrator/Single/Turned.antt =====
-- The turns of a run of crates/tako-orchestrator/src/single.rs, as calls from one world to the next.
use tako_ai_core.Common.{
  ℕ, zero, suc, ◌+◌, ◌≤◌, ◌<◌, ◌≡◌, refl, sym, subst, inl, inr, ◌==◌, if◌then◌else◌, String, Option,
  none, some, List, [], ◌∷◌, ◌++◌, List-cases, arith,
}
use tako_ai_core.Core.Effects.{Outcome, returns, Outcome-cases, bind-returns}
use tako_ai_core.Core.Float.{Float}
use tako_ai_core.Core.Types.{
  Principal, Message, user, ContentPart, ToolSchema, ChatResponse, Usage, no_usage,
}
use tako_ai_core.Core.Traits.{LlmProvider}
use tako_ai_core.Orchestrator.Types.{OrchInput, OrchOutput}
use tako_ai_core.Orchestrator.Single.{
  Texts, SingleAgent, Call, model_of, or_zero, tool_calls, add_usage, output, opening,
  pick_provider, build_request, budget_check, budget_record, run_tools, call_provider, turns, run,
}
use tako_ai_core.Orchestrator.Single.Tools.{Ran, run_tools-Ran}
use tako_ai_core.Orchestrator.Single.Steps.{SaturatedUsage, turns-bounds}

returned_pair :
    {W : Type 0} (m model : String) (r resp : ChatResponse) (w v : W)
    → ◌≡◌ {A = Outcome W (String × ChatResponse)} (returns (m, r) w) (returns (model, resp) v)
    → (m ≡ model) × (r ≡ resp) × (w ≡ v)
returned_pair m model r resp w v h = (cc, cc, cc)

module _ (F : Float) {W Stream : Type 0} (texts : Texts) (a : SingleAgent W F.Real Stream)
    (principal : Principal) where
  -- One call of the chosen provider, after its budget check and before its charge.
  pub record Called (messages : List Message) (model : String) (resp : ChatResponse) (w w' : W)
      : Type 0 where
    pub provider : LlmProvider W F.Real Stream
    pub chosen : W
    pub picks : pick_provider a principal messages w ≡ returns provider chosen
    pub named : model ≡ model_of provider.id
    pub schemas : List ToolSchema
    pub listed : W
    pub lists : a.tools.schemas chosen ≡ (schemas, listed)
    pub checked : W
    pub checks :
        budget_check F a.budget principal
          (provider.estimate_cost_usd (build_request a model messages schemas))
          (or_zero a.max_tokens)
          listed
        ≡ returns tt checked
    pub answered : W
    pub answers :
        provider.chat principal (build_request a model messages schemas) checked
        ≡ returns resp answered
    pub records :
        budget_record F a.budget principal
          (provider.estimate_cost_usd (build_request a model messages schemas))
          resp.usage
          answered
        ≡ returns tt w'

  -- The turns with so many steps left, by the number of their provider calls: a turn is one call, and
  -- then the tools that the answer asks for, if any.
  pub data Turned : ℕ → ℕ → List Message → W → W → Type 0 where
    used_up : {messages : List Message} {w : W} → Turned zero zero messages w w
    no_tools :
        {left : ℕ} {messages : List Message} {model : String} {resp : ChatResponse} {w w' : W}
        → Called messages model resp w w'
        → tool_calls resp.message.content ≡ []
        → Turned (suc left) 1 messages w w'
    tools :
        {left calls : ℕ} {messages : List Message} {model : String} {resp : ChatResponse} {c : Call}
        {cs : List Call} {w v u w' : W} (results : List ContentPart)
        → Called messages model resp w v
        → tool_calls resp.message.content ≡ c ∷ cs
        → Ran texts a.tools a.policy principal model
            (messages ++ resp.message ∷ [])
            (c ∷ cs)
            results
            v
            u
        → Turned left calls
            ((messages ++ resp.message ∷ []) ++ record { role = user; content = results } ∷ [])
            u
            w'
        → Turned (suc left) (suc calls) messages w w'

  same_call :
      (messages : List Message) (m model : String) (r resp : ChatResponse) (w v w' : W)
      → m ≡ model
      → r ≡ resp
      → v ≡ w'
      → Called messages m r w v
      → Called messages model resp w w'
  same_call messages m model r resp w v w' p q e c =
      subst (λ z. Called messages model resp w z) e
        (subst (λ z. Called messages model z w v) q (subst (λ z. Called messages z r w v) p c))

  call_provider-Called :
      (messages : List Message) (model : String) (resp : ChatResponse) (w w' : W)
      → call_provider F a principal messages w ≡ returns (model, resp) w'
      → Called messages model resp w w'
  unfolding call_provider
  call_provider-Called messages model resp w w' h =
      let (provider, chosen, picks, rest) =
        bind-returns (pick_provider a principal messages) _ w w' (model, resp) h in
      let listed = (a.tools.schemas chosen).1 in
      let req = build_request a (model_of provider.id) messages (a.tools.schemas chosen).0 in
      let usd = provider.estimate_cost_usd req in
      let (_, checked, checks, h1) =
        bind-returns (budget_check F a.budget principal usd (or_zero a.max_tokens)) _ listed w'
          (model, resp) rest in
      let (reply, answered, answers, h2) =
        bind-returns (provider.chat principal req) _ checked w' (model, resp) h1 in
      let (_, recorded, records, h3) =
        bind-returns (budget_record F a.budget principal usd reply.usage) _ answered w'
          (model, resp) h2 in
      let (same_model, same_resp, same_end) =
        returned_pair (model_of provider.id) model reply resp recorded w' h3 in
      let called : Called messages (model_of provider.id) reply w recorded = record {
        provider = provider;
        chosen = chosen;
        picks = picks;
        named = refl;
        schemas = (a.tools.schemas chosen).0;
        listed = listed;
        lists = refl;
        checked = checked;
        checks = checks;
        answered = answered;
        answers = answers;
        records = records;
      } in
      same_call messages (model_of provider.id) model reply resp w recorded w' same_model same_resp
        same_end called

  turns-Turned :
      (left step steps : ℕ) (messages : List Message) (usage : Usage) (final : Option Message)
      (w w' : W) (out : OrchOutput)
      → turns F texts a principal left step messages usage steps final w ≡ returns out w'
      → (calls : ℕ) × (out.steps ≡ steps + calls) × Turned left calls messages w w'
  unfolding turns output
  turns-Turned zero step steps messages usage final w w' out h =
      let same : w ≡ w' = ground arith in (0, ground arith, rw (sym same) used_up)
  turns-Turned (suc left) step steps messages usage final w w' out h =
      elim (Outcome-cases (call_provider F a principal messages w)) [
        | inr (e, v, x) ↦ absurd (ground arith)
        | inl ((model, resp), v, x) ↦
            let called = call_provider-Called messages model resp w v x in
            elim (List-cases (tool_calls resp.message.content)) [
              | inl n ↦
                  let same : v ≡ w' = ground arith in
                  (1, ground arith, no_tools (rw (same) at called) n)
              | inr (c, cs, n) ↦
                  let messages' = messages ++ resp.message ∷ [] in
                  elim (Outcome-cases
                    (run_tools texts a.tools a.policy principal model messages' (c ∷ cs) v)) [
                      | inr (e, u, y) ↦ absurd (ground arith)
                      | inl (results, u, y) ↦
                          let (calls, sum, turned) =
                            turns-Turned left (step + 1) (steps + 1)
                              (messages' ++ record { role = user; content = results } ∷ [])
                              (add_usage usage resp.usage)
                              (if step + 1 == a.max_steps then some resp.message else final) u w'
                              out (ground arith) in
                          (
                            suc calls,
                            omega arith,
                            tools results called n
                                (run_tools-Ran texts a.tools a.policy principal model messages'
                                  (c ∷ cs) results v u y)
                                turned,
                          )
                    ]
            ]
      ]

  -- A run that answers is so many turns as its `steps` says, each with one call of the provider that
  -- was chosen for it, between its budget check and its charge. There are at most `max_steps` of
  -- them, at least one if any is allowed, and the token sums fit into 32 bits.
  pub run-Turned :
      (input : OrchInput) (w w' : W) (out : OrchOutput)
      → run F texts a principal input w ≡ returns out w'
      → Turned a.max_steps out.steps (opening input) w w'
        × (out.steps ≤ a.max_steps)
        × (0 < a.max_steps → 0 < out.steps)
        × SaturatedUsage out.usage
  unfolding run
  run-Turned input w w' out h =
      let (calls, sum, turned) =
        turns-Turned a.max_steps 0 0 (opening input) no_usage none w w' out h in
      let same : calls ≡ out.steps = omega (arith, sum) in
      let (most, least, more, full) =
        turns-bounds F texts a principal a.max_steps 0 0 (opening input) no_usage none w w' out
          (omega arith, omega arith) h in
      (
        subst (λ n. Turned a.max_steps n (opening input) w w') same turned,
        omega (arith, most),
        more,
        full,
      )
