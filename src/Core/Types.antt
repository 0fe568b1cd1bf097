-- ===== src/Core/Types.antt =====
-- crates/tako-core/src/types.rs: principals, messages, requests, responses and policy verdicts.
use tako_ai_core.Common.{
  ℕ, ◌+◌, ◌-◌, ◌^◌, String, Option, none, some, List, [], ◌∷◌, Bool, false, ltb, if◌then◌else◌,
  Dict,
}
use tako_ai_core.Core.Json.{Json}

pub record Principal : Type 0 where
  pub tenant_id : String
  pub user_id : String
  pub roles : List String
  pub trace_id : Option String
  pub metadata : Dict String

abbrev pub anonymous : Principal
anonymous = record {
  tenant_id = "anonymous";
  user_id = "anonymous";
  roles = [];
  trace_id = none;
  metadata = [];
}

pub data Role : Type 0 where
  system user assistant tool : Role

pub data ContentPart : Type 0 where
  text : String → ContentPart
  -- the MIME type and the data in base64
  image : String → String → ContentPart
  -- the URL and a MIME hint
  image_url : String → Option String → ContentPart
  -- the id, the tool's name and its arguments
  tool_call : String → String → Json → ContentPart
  -- the id, the result and `is_error`
  tool_result : String → Json → Bool → ContentPart

pub record Message : Type 0 where
  pub role : Role
  pub content : List ContentPart

abbrev pub system_message : String → Message
system_message s = record { role = system; content = text s ∷ [] }

abbrev pub user_message : String → Message
user_message s = record { role = user; content = text s ∷ [] }

abbrev pub assistant_message : String → Message
assistant_message s = record { role = assistant; content = text s ∷ [] }

unfoldable pub as_text : ContentPart → Option String
as_text (text s) = some s
as_text _ = none

-- MCP's hints about a tool's side effects
pub record ToolAnnotations : Type 0 where
  pub read_only_hint : Option Bool
  pub destructive_hint : Option Bool
  pub idempotent_hint : Option Bool
  pub open_world_hint : Option Bool

pub record ToolSchema : Type 0 where
  pub name : String
  pub description : String
  pub input_schema : Json
  pub annotations : Option ToolAnnotations

-- `temperature` is an `f32` that the modelled code only passes on: its type is an argument.
pub record ChatRequest (R : Type 0) : Type 0 where
  pub model : String
  pub messages : List Message
  pub tools : List ToolSchema
  pub temperature : Option R
  pub max_tokens : Option ℕ
  pub stop : List String
  pub stream : Bool
  pub metadata : Dict String

abbrev pub new_request : {R : Type 0} → String → List Message → ChatRequest R
new_request model messages = record {
  model = model;
  messages = messages;
  tools = [];
  temperature = none;
  max_tokens = none;
  stop = [];
  stream = false;
  metadata = [];
}

pub data FinishReason : Type 0 where
  stop length tool_calls content_filter error other : FinishReason

pub record Usage : Type 0 where
  pub input_tokens : ℕ
  pub output_tokens : ℕ

abbrev pub u32_max : ℕ
u32_max = 2 ^ 32 - 1

abbrev pub u64_max : ℕ
u64_max = 2 ^ 64 - 1

-- `saturating_add` on a type whose greatest value is `top`
abbrev pub saturating_add : ℕ → ℕ → ℕ → ℕ
saturating_add top a b = if ltb top (a + b) then top else a + b

abbrev pub no_usage : Usage
no_usage = record { input_tokens = 0; output_tokens = 0 }

unfoldable pub total : Usage → ℕ
total u = saturating_add u32_max u.input_tokens u.output_tokens

pub record ChatResponse : Type 0 where
  pub message : Message
  pub finish_reason : FinishReason
  pub usage : Usage
  pub raw : Dict Json

pub record RoutingDecision (R : Type 0) : Type 0 where
  pub provider_id : String
  pub confidence : R
  pub reason : Option String

pub data PolicyStage : Type 0 where
  pre_chat pre_tool post_chat : PolicyStage

pub record PolicyContext : Type 0 where
  pub stage : PolicyStage
  pub model : String
  pub messages_hash : String
  pub tools : List String
  pub tool_args_hash : Option String
  pub response_hash : Option String

pub data PolicyDecision : Type 0 where
  allow : PolicyDecision
  deny : String → PolicyDecision
  redact_messages redact_response : List String → PolicyDecision
  force_model : String → PolicyDecision
  require_approval : String → PolicyDecision

pub record Budget (R : Type 0) : Type 0 where
  pub max_usd_per_request : Option R
  pub max_usd_per_day : Option R
  pub max_tokens_per_request : Option ℕ
  pub max_usd_per_tenant_per_day : Dict R
