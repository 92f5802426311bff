-- ===== src/Driver.antt =====
-- ws/src/warehouse_m1_driver/warehouse_m1_driver: the layer L0', the driver between /cmd_vel and the
-- motor board.
pub mod Clamp
pub mod Core
pub mod StopState
pub mod Node
mod Witnesses
