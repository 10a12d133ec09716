-- ===== src/Api.antt =====
-- The routes beside the MCP server: app/api
pub mod Webhooks
pub mod Usage
