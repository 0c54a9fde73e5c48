-- ===== src/Edge.antt =====
-- services/mcp-edge-gateway: the edge in front of the gateway.
pub mod Handover
