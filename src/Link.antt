-- ===== src/Link.antt =====
-- The remote operator's control link:
-- ws/src/warehouse_teleop/warehouse_teleop/operator_link_logic.py.
pub mod Session
pub mod Watchdog
pub mod Approval
pub mod Values
pub mod Parse
mod Witnesses
