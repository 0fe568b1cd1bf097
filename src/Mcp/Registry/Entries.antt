-- ===== src/Mcp/Registry/Entries.antt =====
-- Which tool a name leads to.
use tako_ai_core.Common.{
  ◌≡◌, refl, ◌∙◌, inl, inr, false, Bool-cases, str_eq, eq_iff, if◌then◌else◌, String, Option, none,
  some, List, [], ◌∷◌, arith,
}
use tako_ai_core.Core.Types.{ToolSchema}
use tako_ai_core.Mcp.Registry.{
  Tool, McpTransport, ToolEntry, native, mcp, Inner, without, put, entry_of, register_native,
  register_mcp,
}

-- the last schema of that name, if there is one
abbrev pub last_named : String → List ToolSchema → Option ToolSchema
last_named name [] = none
last_named name (s ∷ ss) = elim (last_named name ss) [
  | some t ↦ some t
  | none ↦ if str_eq s.name name then some s else none
]

module _ {W : Type 0} where
  entry_of-without :
      (name other : String) (inner : Inner W)
      → str_eq name other ≡ false
      → entry_of other (without name inner) ≡ entry_of other inner
  unfolding entry_of without
  entry_of-without name other [] h = refl
  entry_of-without name other (e ∷ rest) h = ground (
    arith,
    entry_of-without name other rest h,
    eq_iff e.0 name,
    eq_iff e.0 other,
    eq_iff name other,
  )

  entry_of-put :
      (name other : String) (entry : ToolEntry W) (inner : Inner W)
      → entry_of other (put name entry inner)
        ≡ (if str_eq name other then some entry else entry_of other inner)
  unfolding put entry_of
  entry_of-put name other entry inner = elim (Bool-cases (str_eq name other)) [
    | inl t ↦ rw t refl
    | inr t ↦ rw t (entry_of-without name other inner t)
  ]

  -- A native tool that is registered is the one its name leads to, and every other name leads where
  -- it led before.
  pub entry_of-register_native :
      (tool : Tool W) (name : String) (inner : Inner W)
      → entry_of name (register_native tool inner)
        ≡ (if str_eq tool.name name then some (native tool) else entry_of name inner)
  unfolding register_native
  entry_of-register_native tool name inner = entry_of-put tool.name name (native tool) inner

  abbrev pub mcp_or :
      McpTransport W → Option ToolSchema → Option (ToolEntry W) → Option (ToolEntry W)
  mcp_or transport none before = before
  mcp_or transport (some s) before = some (mcp s transport)

  -- Registering the tools of a server makes each name among them lead to the last schema of that
  -- name, at that server, and leaves every other name alone.
  pub entry_of-register_mcp :
      (transport : McpTransport W) (ss : List ToolSchema) (name : String) (inner : Inner W)
      → entry_of name (register_mcp transport ss inner)
        ≡ mcp_or transport (last_named name ss) (entry_of name inner)
  unfolding register_mcp
  entry_of-register_mcp transport [] name inner = refl
  entry_of-register_mcp transport (s ∷ ss) name inner =
      entry_of-register_mcp transport ss name (put s.name (mcp s transport) inner) ∙ overlaid
    where
      overlaid :
          mcp_or transport (last_named name ss) (entry_of name (put s.name (mcp s transport) inner))
          ≡ mcp_or transport (last_named name (s ∷ ss)) (entry_of name inner)
      overlaid = ground (arith, entry_of-put s.name name (mcp s transport) inner)
