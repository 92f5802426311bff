-- ===== src/Safety.antt =====
-- The safety layer: ws/src/warehouse_safety and the shared limits of
-- ws/src/warehouse_interfaces/warehouse_interfaces/safety.py.
pub mod Limits
pub mod Guard
pub mod Motion
pub mod Latches
pub mod Health
pub mod Guardian
mod Witnesses
