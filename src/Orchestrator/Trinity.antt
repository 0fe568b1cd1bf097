-- ===== src/Orchestrator/Trinity.antt =====
-- crates/tako-orchestrator/src/trinity.rs: Trinity, which lets a router choose a role, and with it a
-- provider, for every turn. The order in which a HashMap is iterated is that of its list here, and may
-- be any. Spans and logs, and the streaming run with its verifier, are left out.
pub mod Roles
pub mod Steps
pub mod Examples
use Prim.Native.Char.{code}
use tako_ai_core.Common.{
  ℕ, zero, suc, ◌+◌, Bool, true, false, ◌==◌, ltb, str_eq, if◌then◌else◌, String, Option, none,
  some, List, [], ◌∷◌, ◌++◌, map, Dict, lookup, string_append,
}
use tako_ai_core.Core.Error.{lit, invalid}
use tako_ai_core.Core.Effects.{Io, Outcome, returns, raises, pure, fail, ◌>>=◌, Result, ok, err}
use tako_ai_core.Core.Float.{Float}
use tako_ai_core.Core.Types.{
  Principal, Message, user, ChatRequest, new_request, ChatResponse, Usage, no_usage,
}
use tako_ai_core.Core.Traits.{LlmProvider, PolicyEngine, Router, Verifier}
use tako_ai_core.Runtime.Budget.{BudgetTracker}
use tako_ai_core.Orchestrator.Types.{OrchInput, OrchOutput}
use tako_ai_core.Orchestrator.Single.{
  ToolRegistry, Texts, model_of, tool_calls, or_zero, add_usage, output, opening, run_tools,
  budget_check, budget_record,
}

pub record Trinity (W R Stream : Type 0) : Type 0 where
  pub roles : Dict (LlmProvider W R Stream)
  pub role_order : List String
  pub router : Router W R
  pub tools : ToolRegistry W
  pub max_steps : ℕ
  pub temperature : Option R
  pub max_tokens : Option ℕ
  pub policy : Option (PolicyEngine W)
  pub budget : Option (BudgetTracker W R)
  pub verifier : Option (Verifier W R)

pub record TrinityBuilder (W R Stream : Type 0) : Type 0 where
  pub roles : Dict (LlmProvider W R Stream)
  pub role_order : List String
  pub router : Option (Router W R)
  pub tools : Option (ToolRegistry W)
  pub max_steps : Option ℕ
  pub temperature : Option R
  pub max_tokens : Option ℕ
  pub policy : Option (PolicyEngine W)
  pub budget : Option (BudgetTracker W R)
  pub verifier : Option (Verifier W R)

abbrev pub default_max_steps : ℕ
default_max_steps = 8

-- `insert`, in a map that is also iterated: the key keeps one entry
unfoldable pub put_role : {V : Type 0} → String → V → List (String × V) → List (String × V)
put_role key value [] = (key, value) ∷ []
put_role key value (entry ∷ rest) =
    if str_eq entry.0 key then (key, value) ∷ rest else entry ∷ put_role key value rest

-- `split_once('|')`
unfoldable pub split_bar : String → Option (String × String)
split_bar String.[] = none
split_bar (String.◌∷◌ c s) =
    let rest = split_bar s in
    if code c == b'|'
    then some (String.[], s)
    else elim rest [ none ↦ none | some (a, b) ↦ some (String.◌∷◌ c a, b) ]

abbrev pub tools_or : {W : Type 0} → ToolRegistry W → Option (ToolRegistry W) → ToolRegistry W
tools_or empty none = empty
tools_or empty (some t) = t

abbrev pub steps_or_default : Option ℕ → ℕ
steps_or_default none = default_max_steps
steps_or_default (some n) = n

unfoldable pub or_else : {A : Type 0} → Option A → Option A → Option A
or_else none next = next
or_else (some a) next = some a

module _ {W R Stream : Type 0} where
  abbrev pub builder : TrinityBuilder W R Stream
  builder = record {
    roles = [];
    role_order = [];
    router = none;
    tools = none;
    max_steps = none;
    temperature = none;
    max_tokens = none;
    policy = none;
    budget = none;
    verifier = none;
  }

  unfoldable pub role :
      String → LlmProvider W R Stream → TrinityBuilder W R Stream → TrinityBuilder W R Stream
  role name p b = record b {
    role_order = elim (lookup name b.roles) [
      | none ↦ b.role_order ++ name ∷ []
      | some _ ↦ b.role_order
    ];
    roles = put_role name p b.roles;
  }

  abbrev pub with_router : Router W R → TrinityBuilder W R Stream → TrinityBuilder W R Stream
  with_router r b = record b { router = some r }

  abbrev pub with_tools : ToolRegistry W → TrinityBuilder W R Stream → TrinityBuilder W R Stream
  with_tools t b = record b { tools = some t }

  abbrev pub with_max_steps : ℕ → TrinityBuilder W R Stream → TrinityBuilder W R Stream
  with_max_steps n b = record b { max_steps = some (if n == 0 then 1 else n) }

  abbrev pub with_temperature : R → TrinityBuilder W R Stream → TrinityBuilder W R Stream
  with_temperature x b = record b { temperature = some x }

  abbrev pub with_max_tokens : ℕ → TrinityBuilder W R Stream → TrinityBuilder W R Stream
  with_max_tokens n b = record b { max_tokens = some n }

  abbrev pub with_verifier : Verifier W R → TrinityBuilder W R Stream → TrinityBuilder W R Stream
  with_verifier v b = record b { verifier = some v }

  abbrev pub with_policy : PolicyEngine W → TrinityBuilder W R Stream → TrinityBuilder W R Stream
  with_policy p b = record b { policy = some p }

  abbrev pub with_budget : BudgetTracker W R → TrinityBuilder W R Stream → TrinityBuilder W R Stream
  with_budget t b = record b { budget = some t }

  -- `build`; the argument is a new registry
  unfoldable pub build : ToolRegistry W → TrinityBuilder W R Stream → Result (Trinity W R Stream)
  build empty b = elim b.roles [
    | [] ↦ err (invalid (lit "TrinityBuilder: at least one role is required" ∷ []))
    | _ ∷ _ ↦ elim b.router [
      | none ↦ err (invalid (lit "TrinityBuilder: router is required" ∷ []))
      | some router ↦ ok (record {
        roles = b.roles;
        role_order = b.role_order;
        router = router;
        tools = tools_or empty b.tools;
        max_steps = steps_or_default b.max_steps;
        temperature = b.temperature;
        max_tokens = b.max_tokens;
        policy = b.policy;
        budget = b.budget;
        verifier = b.verifier;
      })
    ]
  ]

  abbrev pub id_or_empty : Option (LlmProvider W R Stream) → String
  id_or_empty none = ""
  id_or_empty (some p) = p.id

  unfoldable pub candidate_id : Dict (LlmProvider W R Stream) → String → String
  candidate_id roles r = string_append r (string_append "|" (id_or_empty (lookup r roles)))

  unfoldable pub candidate_ids : Trinity W R Stream → List String
  candidate_ids t = map (candidate_id t.roles) t.role_order

  unfoldable pub named :
      String → Option (LlmProvider W R Stream) → Option (String × LlmProvider W R Stream)
  named r none = none
  named r (some p) = some (r, p)

  -- the loop over the map, for a provider with this id
  unfoldable pub with_id :
      String → Dict (LlmProvider W R Stream) → Option (String × LlmProvider W R Stream)
  with_id id [] = none
  with_id id (entry ∷ rest) =
      let next = with_id id rest in if str_eq (entry.1).id id then some entry else next

  -- the role before the first bar, if there is one
  unfoldable pub by_label :
      Dict (LlmProvider W R Stream) → String → Option (String × LlmProvider W R Stream)
  by_label roles id = elim (split_bar id) [ none ↦ none | some (r, _) ↦ named r (lookup r roles) ]

  unfoldable pub pick_provider :
      Dict (LlmProvider W R Stream) → String → Option (String × LlmProvider W R Stream)
  pick_provider roles id =
      or_else (by_label roles id) (or_else (named id (lookup id roles)) (with_id id roles))

  abbrev pub chosen_or :
      String → Option (String × LlmProvider W R Stream) → Io W (String × LlmProvider W R Stream)
  chosen_or id none =
      fail (invalid (lit "Trinity: router chose unknown provider id `" ∷ lit id ∷ lit "`" ∷ []))
  chosen_or id (some c) = pure c

  -- the router's choice for a turn
  unfoldable pub choose :
      Trinity W R Stream → Principal → List Message → Io W (String × LlmProvider W R Stream)
  choose t principal messages =
      t.router.route principal (new_request "router" messages) (candidate_ids t) >>= λ decision.
      chosen_or decision.provider_id (pick_provider t.roles decision.provider_id)

module _ (F : Float) {W Stream : Type 0} where
  open F use {Real}

  -- one turn's provider call with its budget: the model and the answer
  unfoldable pub call_role :
      Trinity W Real Stream → Principal → List Message → Io W (String × ChatResponse)
  call_role t principal messages = choose t principal messages >>= λ picked w.
      let provider = picked.1 in
      let model = model_of provider.id in
      let (tool_schemas, w') = t.tools.schemas w in
      let req : ChatRequest Real = record (new_request model messages) {
        tools = tool_schemas;
        temperature = t.temperature;
        max_tokens = t.max_tokens;
      } in
      let usd = provider.estimate_cost_usd req in
      (budget_check F t.budget principal usd (or_zero req.max_tokens) >>= λ _.
      provider.chat principal req >>= λ resp.
      budget_record F t.budget principal usd resp.usage >>= λ _. pure (model, resp))
        w'

  -- the `for` loop, by the steps that are left
  unfoldable pub turns :
      Texts
      → Trinity W Real Stream
      → Principal
      → ℕ
      → ℕ
      → List Message
      → Usage
      → ℕ
      → Option Message
      → Io W OrchOutput
  turns texts t principal zero step messages usage steps final w =
      returns (output final usage steps) w
  turns texts t principal (suc left) step messages usage steps final w =
      elim (call_role t principal messages w) [
        | raises e w' ↦ raises e w'
        | returns (model, resp) w' ↦
            let usage' = add_usage usage resp.usage in
            let messages' = messages ++ resp.message ∷ [] in
            elim (tool_calls resp.message.content) [
              | [] ↦ returns (output (some resp.message) usage' (steps + 1)) w'
              | c ∷ cs ↦
                  elim (run_tools texts t.tools t.policy principal model messages' (c ∷ cs) w') [
                    | raises e w'' ↦ raises e w''
                    | returns results w'' ↦
                        turns texts t principal left (step + 1)
                          (messages' ++ record { role = user; content = results } ∷ []) usage'
                          (steps + 1) (if step + 1 == t.max_steps then some resp.message else final)
                          w''
                  ]
            ]
      ]

  unfoldable pub run : Texts → Trinity W Real Stream → Principal → OrchInput → Io W OrchOutput
  run texts t principal input =
      turns texts t principal t.max_steps 0 (opening input) no_usage 0 none
