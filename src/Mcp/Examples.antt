-- ===== src/Mcp/Examples.antt =====
-- The theorems on the registry at concrete inputs.
use tako_ai_core.Common.{ℕ, ◌+◌, ◌≡◌, none, [], ◌∷◌}
use tako_ai_core.Core.Json.{null}
use tako_ai_core.Core.Effects.{returns}
use tako_ai_core.Core.Types.{ToolSchema}
use tako_ai_core.Mcp.Registry.{Tool, McpTransport, native, Inner, entry_of, register_mcp}
use tako_ai_core.Mcp.Registry.Entries.{last_named, mcp_or, entry_of-register_mcp}

abbrev search_schema : ToolSchema
search_schema = record {
  name = "search";
  description = "";
  input_schema = null;
  annotations = none;
}

abbrev newer_schema : ToolSchema
newer_schema = record {
  name = "search";
  description = "newer";
  input_schema = null;
  annotations = none;
}

abbrev search_tool : Tool ℕ
search_tool = record {
  name = "search";
  schema = search_schema;
  invoke = λ who args n. returns null (n + 1);
}

abbrev server : McpTransport ℕ
server = record { request = λ method params n. returns null (n + 1) }

abbrev one_tool : Inner ℕ
one_tool = ("search", native search_tool) ∷ []

entry_of-register_mcp_example :
    entry_of "search" (register_mcp server (search_schema ∷ newer_schema ∷ []) one_tool)
    ≡ mcp_or server
        (last_named "search" (search_schema ∷ newer_schema ∷ []))
        (entry_of "search" one_tool)
entry_of-register_mcp_example =
    entry_of-register_mcp server (search_schema ∷ newer_schema ∷ []) "search" one_tool
