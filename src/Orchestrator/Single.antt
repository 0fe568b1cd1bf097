-- ===== src/Orchestrator/Single.antt =====
-- crates/tako-orchestrator/src/single.rs: the agent that calls a provider and the tools it asks for,
-- turn by turn. Spans and logs are left out.
pub mod Tools
pub mod Steps
pub mod Turned
pub mod Examples
use Prim.Native.Char.{code}
use tako_ai_core.Common.{
  ℕ, zero, suc, ◌+◌, Bool, true, false, ◌==◌, str_eq, if◌then◌else◌, String, Option, none, some,
  List, [], ◌∷◌, ◌++◌, before_char, string_append,
}
use tako_ai_core.Core.Error.{TakoError, Text, lit, invalid, policy_denied}
use tako_ai_core.Core.Json.{Json, string, message, object, field, end}
use tako_ai_core.Core.Effects.{Io, Outcome, returns, raises, pure, fail, ◌>>=◌, ◌>>◌}
use tako_ai_core.Core.Float.{Float}
use tako_ai_core.Core.Types.{
  Principal, Message, user, system_message, assistant_message, ContentPart, text, image, image_url,
  tool_call, tool_result, as_text, ToolSchema, ChatRequest, new_request, ChatResponse,
  RoutingDecision, Usage, no_usage, saturating_add, u32_max, PolicyContext, pre_tool,
  PolicyDecision, allow, deny, redact_messages, redact_response, force_model, require_approval,
}
use tako_ai_core.Core.Traits.{LlmProvider, PolicyEngine, Router}
use tako_ai_core.Runtime.Budget.{BudgetTracker, pre_check, record_spend}
use tako_ai_core.Orchestrator.Types.{OrchInput, OrchOutput}

-- `ToolRegistry`, as the agent uses it
pub record ToolRegistry (W : Type 0) : Type 0 where
  pub schemas : W → List ToolSchema × W
  pub invoke : Principal → String → Json → Io W Json

-- the SHA-256 of messages and of a JSON value, and `to_string` of an error
pub record Texts : Type 0 where
  pub hash_messages : List Message → String
  pub hash_value : Json → String
  pub display : TakoError → Text

pub record SingleAgent (W R Stream : Type 0) : Type 0 where
  pub provider : LlmProvider W R Stream
  pub candidates : List (LlmProvider W R Stream)
  pub router : Option (Router W R)
  pub tools : ToolRegistry W
  pub max_steps : ℕ
  pub temperature : Option R
  pub max_tokens : Option ℕ
  pub policy : Option (PolicyEngine W)
  pub budget : Option (BudgetTracker W R)

-- `id.split(':').nth(1).unwrap_or("")`
unfoldable pub model_of : String → String
model_of String.[] = ""
model_of (String.◌∷◌ c rest) =
    let later = model_of rest in if code c == b':' then before_char b':' rest else later

pub record Call : Type 0 where
  pub id : String
  pub name : String
  pub args : Json

unfoldable pub tool_calls : List ContentPart → List Call
tool_calls [] = []
tool_calls (tool_call id name args ∷ rest) =
    record { id = id; name = name; args = args } ∷ tool_calls rest
tool_calls (text s ∷ rest) = tool_calls rest
tool_calls (image m d ∷ rest) = tool_calls rest
tool_calls (image_url u m ∷ rest) = tool_calls rest
tool_calls (tool_result i r e ∷ rest) = tool_calls rest

-- the texts of the parts, joined
unfoldable pub all_text : List ContentPart → String
unfolding as_text
all_text [] = ""
all_text (p ∷ rest) = elim (as_text p) [
  | some s ↦ string_append s (all_text rest)
  | none ↦ all_text rest
]

abbrev pub add_usage : Usage → Usage → Usage
add_usage total u = record {
  input_tokens = saturating_add u32_max total.input_tokens u.input_tokens;
  output_tokens = saturating_add u32_max total.output_tokens u.output_tokens;
}

abbrev pub or_zero : Option ℕ → ℕ
or_zero none = 0
or_zero (some n) = n

abbrev pub or_empty : Option Message → Message
or_empty none = assistant_message ""
or_empty (some m) = m

abbrev pub opening : OrchInput → List Message
opening input = elim input.system [
  | some s ↦ system_message s ∷ input.messages
  | none ↦ input.messages
]

unfoldable pub output : Option Message → Usage → ℕ → OrchOutput
output final usage steps = record {
  text = all_text (or_empty final).content;
  message = or_empty final;
  usage = usage;
  steps = steps;
}

module _ {W R Stream : Type 0} where
  abbrev pub ids : List (LlmProvider W R Stream) → List String
  ids [] = []
  ids (p ∷ ps) = p.id ∷ ids ps

  pub find_provider : String → List (LlmProvider W R Stream) → Option (LlmProvider W R Stream)
  find_provider id [] = none
  find_provider id (p ∷ ps) =
      let next = find_provider id ps in if str_eq p.id id then some p else next

  abbrev pub found_or : String → Option (LlmProvider W R Stream) → Io W (LlmProvider W R Stream)
  found_or id none =
      fail (invalid (lit "SingleAgent: router chose unknown provider id `" ∷ lit id ∷ lit "`" ∷ []))
  found_or id (some p) = pure p

  pub pick_provider :
      SingleAgent W R Stream → Principal → List Message → Io W (LlmProvider W R Stream)
  pick_provider a principal messages = elim a.router [
    | none ↦ pure a.provider
    | some router ↦ elim a.candidates [
      | [] ↦ pure a.provider
      | c ∷ cs ↦
          router.route principal (new_request "router" messages) (ids (a.provider ∷ c ∷ cs))
          >>= λ decision.
              found_or decision.provider_id
                (find_provider decision.provider_id (a.provider ∷ c ∷ cs))
    ]
  ]

  abbrev pub build_request :
      SingleAgent W R Stream → String → List Message → List ToolSchema → ChatRequest R
  build_request a model messages tool_schemas = record (new_request model messages) {
    tools = tool_schemas;
    temperature = a.temperature;
    max_tokens = a.max_tokens;
  }

module _ {W : Type 0} (texts : Texts) (tools : ToolRegistry W) (policy : Option (PolicyEngine W))
    (principal : Principal) where
  -- what the policy's decision on a tool means
  pub obey : String → PolicyDecision → Io W (Unit {0})
  obey name (deny reason) =
      fail (policy_denied (lit "tool `" ∷ lit name ∷ lit "`: " ∷ lit reason ∷ []))
  obey name (require_approval reason) =
      fail (policy_denied (lit "tool `" ∷ lit name ∷ lit "` requires approval: " ∷ lit reason ∷ []))
  obey name allow = pure tt
  obey name (redact_messages _) = pure tt
  obey name (redact_response _) = pure tt
  obey name (force_model _) = pure tt

  abbrev pub tool_context : String → List Message → Call → PolicyContext
  tool_context model messages call = record {
    stage = pre_tool;
    model = model;
    messages_hash = texts.hash_messages messages;
    tools = call.name ∷ [];
    tool_args_hash = some (texts.hash_value call.args);
    response_hash = none;
  }

  pub consult : String → List Message → Call → Io W (Unit {0})
  consult model messages call = elim policy [
    | none ↦ pure tt
    | some engine ↦ engine.evaluate principal (tool_context model messages call) >>= obey call.name
  ]

  -- an invocation never fails: an error becomes its result
  pub invoke_tool : Call → W → ContentPart × W
  invoke_tool call w = elim (tools.invoke principal call.name call.args w) [
    | returns v w' ↦ (tool_result call.id v false, w')
    | raises e w' ↦
        (tool_result call.id (object (field "error" (message (texts.display e)) end)) true, w')
  ]

  -- the loop over the calls of one turn
  pub run_tools : String → List Message → List Call → Io W (List ContentPart)
  run_tools model messages [] w = returns [] w
  run_tools model messages (call ∷ calls) w = elim (consult model messages call w) [
    | raises e w' ↦ raises e w'
    | returns _ w' ↦
        let (part, w'') = invoke_tool call w' in
        elim (run_tools model messages calls w'') [
          | returns parts v ↦ returns (part ∷ parts) v
          | raises e v ↦ raises e v
        ]
  ]

module _ (F : Float) {W : Type 0} where
  open F use {Real}

  abbrev pub budget_check : Option (BudgetTracker W Real) → Principal → Real → ℕ → Io W (Unit {0})
  budget_check none principal usd tokens = pure tt
  budget_check (some b) principal usd tokens = pre_check F b principal usd tokens

  abbrev pub budget_record :
      Option (BudgetTracker W Real) → Principal → Real → Usage → Io W (Unit {0})
  budget_record none principal usd usage = pure tt
  budget_record (some b) principal usd usage = record_spend F b principal usd usage

module _ (F : Float) {W Stream : Type 0} where
  open F use {Real}

  -- One provider call with its budget: the chosen provider's model, and its answer.
  pub call_provider :
      SingleAgent W Real Stream → Principal → List Message → Io W (String × ChatResponse)
  unfolding pick_provider
  call_provider a principal messages = pick_provider a principal messages >>= λ provider w.
      let model = model_of provider.id in
      let (tool_schemas, w') = a.tools.schemas w in
      let req = build_request a model messages tool_schemas in
      let usd = provider.estimate_cost_usd req in
      (budget_check F a.budget principal usd (or_zero req.max_tokens) >>= λ _.
      provider.chat principal req >>= λ resp.
      budget_record F a.budget principal usd resp.usage >>= λ _. pure (model, resp))
        w'

  -- the `for` loop, by the steps that are left
  pub turns :
      Texts
      → SingleAgent W Real Stream
      → Principal
      → ℕ
      → ℕ
      → List Message
      → Usage
      → ℕ
      → Option Message
      → Io W OrchOutput
  turns texts a principal zero step messages usage steps final w =
      returns (output final usage steps) w
  turns texts a principal (suc left) step messages usage steps final w =
      elim (call_provider a principal messages w) [
        | raises e w' ↦ raises e w'
        | returns (model, resp) w' ↦
            let usage' = add_usage usage resp.usage in
            let messages' = messages ++ resp.message ∷ [] in
            elim (tool_calls resp.message.content) [
              | [] ↦ returns (output (some resp.message) usage' (steps + 1)) w'
              | c ∷ cs ↦
                  elim (run_tools texts a.tools a.policy principal model messages' (c ∷ cs) w') [
                    | raises e w'' ↦ raises e w''
                    | returns results w'' ↦
                        turns texts a principal left (step + 1)
                          (messages' ++ record { role = user; content = results } ∷ []) usage'
                          (steps + 1) (if step + 1 == a.max_steps then some resp.message else final)
                          w''
                  ]
            ]
      ]

  pub run : Texts → SingleAgent W Real Stream → Principal → OrchInput → Io W OrchOutput
  run texts a principal input =
      turns texts a principal a.max_steps 0 (opening input) no_usage 0 none
