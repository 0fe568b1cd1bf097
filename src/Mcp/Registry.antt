-- ===== src/Mcp/Registry.antt =====
-- crates/tako-mcp/src/registry.rs: the tools by name. The lock is held through each operation.
pub mod Entries
use Prim.Native.Char.{code}
use tako_ai_core.Common.{
  ℕ, ◌+◌, Bool, true, false, ◌&&◌, ◌||◌, ltb, ◌==◌, str_eq, if◌then◌else◌, String, Option, none,
  some, List, [], ◌∷◌,
}
use tako_ai_core.Core.Error.{TakoError, lit, invalid, not_found}
use tako_ai_core.Core.Json.{Json, null, string, array, object, Items, nil, cons, Fields, end, field}
use tako_ai_core.Core.Effects.{Io, Outcome, returns, raises, Result, ok, err, and_then}
use tako_ai_core.Core.Types.{Principal, ToolSchema}

-- the traits `Tool` and `McpTransport` of crates/tako-core/src/traits, as far as they are called
pub record Tool (W : Type 0) : Type 0 where
  pub name : String
  pub schema : ToolSchema
  pub invoke : Principal → Json → Io W Json

pub record McpTransport (W : Type 0) : Type 0 where
  pub request : String → Json → Io W Json

pub data ToolEntry (W : Type 0) : Type 0 where
  native : Tool W → ToolEntry W
  mcp : ToolSchema → McpTransport W → ToolEntry W

abbrev pub Inner : Type 0 → Type 0
Inner W = List (String × ToolEntry W)

module _ {W : Type 0} where
  pub without : String → Inner W → Inner W
  without name [] = []
  without name (e ∷ rest) =
      let others = without name rest in if str_eq e.0 name then others else e ∷ others

  -- `HashMap::insert`, which replaces
  pub put : String → ToolEntry W → Inner W → Inner W
  put name entry inner = (name, entry) ∷ without name inner

  pub entry_of : String → Inner W → Option (ToolEntry W)
  entry_of name [] = none
  entry_of name (e ∷ rest) =
      let later = entry_of name rest in if str_eq e.0 name then some e.1 else later

  pub register_native : Tool W → Inner W → Inner W
  register_native tool inner = put tool.name (native tool) inner

  pub register_mcp : McpTransport W → List ToolSchema → Inner W → Inner W
  register_mcp transport [] inner = inner
  register_mcp transport (s ∷ rest) inner =
      register_mcp transport rest (put s.name (mcp s transport) inner)

-- `Value::get`, `as_array` and `as_str`
pub field_of : String → Fields → Option Json
field_of key end = none
field_of key (field k v rest) =
    let later = field_of key rest in if str_eq k key then some v else later

pub get : String → Json → Option Json
get key (object fields) = field_of key fields
get key _ = none

abbrev pub items_of : Option Json → Items
items_of (some (array items)) = items
items_of _ = nil

abbrev pub str_of : Option Json → Option String
str_of (some (string s)) = some s
str_of _ = none

abbrev pub or_no_text : Option String → String
or_no_text none = ""
or_no_text (some s) = s

abbrev pub or_no_fields : Option Json → Json
or_no_fields none = object end
or_no_fields (some v) = v

abbrev pub missing_name : TakoError
missing_name = invalid (lit "MCP tools/list entry missing `name`" ∷ [])

abbrev pub named_schema : Json → Option String → Result ToolSchema
named_schema t none = err missing_name
named_schema t (some name) = ok (record {
  name = name;
  description = or_no_text (str_of (get "description" t));
  input_schema = or_no_fields (get "inputSchema" t);
  annotations = none;
})

-- the loop over the listed tools
pub schemas_of : Items → Result (List ToolSchema)
unfolding get
schemas_of nil = ok []
schemas_of (cons t rest) =
    and_then (named_schema t (str_of (get "name" t)))
      λ s. and_then (schemas_of rest) λ ss. ok (s ∷ ss)

abbrev pub count : List ToolSchema → ℕ
count [] = 0
count (s ∷ ss) = count ss + 1

-- the order of names, that of their UTF-8 bytes and so of their code points
pub str_le : String → String → Bool
str_le String.[] t = true
str_le (String.◌∷◌ c s) String.[] = false
str_le (String.◌∷◌ c s) (String.◌∷◌ d t) = ltb (code c) (code d) || (code c == code d) && str_le s t

pub place : ToolSchema → List ToolSchema → List ToolSchema
place s [] = s ∷ []
place s (t ∷ ts) = let later = place s ts in if str_le s.name t.name then s ∷ t ∷ ts else t ∷ later

abbrev pub schema_of : {W : Type 0} → ToolEntry W → ToolSchema
schema_of (native tool) = tool.schema
schema_of (mcp schema transport) = schema

abbrev pub call_params : String → Json → Json
call_params name args = object (field "name" (string name) (field "arguments" args end))

module _ {W : Type 0} where
  -- the registry's `schemas`, sorted by name
  pub schemas : Inner W → List ToolSchema
  schemas [] = []
  schemas (e ∷ rest) = place (schema_of e.1) (schemas rest)

  -- The registry after it, and the number of tools that were found.
  pub discover : McpTransport W → Inner W → Io W (ℕ × Inner W)
  discover transport inner w = elim (transport.request "tools/list" null w) [
    | raises e w' ↦ raises e w'
    | returns result w' ↦ elim (schemas_of (items_of (get "tools" result))) [
      | err e ↦ raises e w'
      | ok ss ↦ returns (count ss, register_mcp transport ss inner) w'
    ]
  ]

  pub invoke : Inner W → Principal → String → Json → Io W Json
  invoke inner principal name args = elim (entry_of name inner) [
    | none ↦ λ w. raises (not_found (lit "tool `" ∷ lit name ∷ lit "`" ∷ [])) w
    | some (native tool) ↦ tool.invoke principal args
    | some (mcp schema transport) ↦ transport.request "tools/call" (call_params name args)
  ]
