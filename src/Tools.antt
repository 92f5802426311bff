-- ===== src/Tools.antt =====
-- ws/src/warehouse_mcp_server/warehouse_mcp_server: the calls of the language model, in front of the gate.
pub mod Replay
pub mod Calls
pub mod Forward
mod Witnesses
