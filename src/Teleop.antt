-- ===== src/Teleop.antt =====
-- ws/src/warehouse_teleop/warehouse_teleop: the gamepad and the keyboard that drive a robot by hand.
pub mod Joymap
pub mod Estop
pub mod Node
pub mod Keymap
pub mod Keyboard
mod Witnesses
