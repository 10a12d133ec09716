-- ===== src/Mcp.antt =====
-- The MCP server and the store of its event streams: app/mcp
pub mod EventStore
pub mod Server
pub mod App
