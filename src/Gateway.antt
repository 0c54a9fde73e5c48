-- ===== src/Gateway.antt =====
-- services/mcp-gateway: how the gateway relays requests to the workspace agent.
pub mod Messages
pub mod Requests
pub mod Connection
pub mod Service
