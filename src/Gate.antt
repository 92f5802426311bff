-- ===== src/Gate.antt =====
-- The governance layer: the Policy Gate and the emergency mirror of ws/src/warehouse_mcp_server.
pub mod Freshness
pub mod Checks
pub mod Policy
pub mod Mirror
mod Witnesses
