-- ===== src/Traffic.antt =====
-- ws/src/warehouse_traffic/warehouse_traffic: the locks on the aisles.
pub mod Locks
pub mod Node
mod Witnesses
