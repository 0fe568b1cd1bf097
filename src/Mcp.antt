-- ===== src/Mcp.antt =====
-- crates/tako-mcp/src: tools, native ones and those of MCP servers.
pub mod Registry
pub mod Examples
