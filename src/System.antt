-- ===== src/System.antt =====
-- Parts that the source joins by a topic: what one publishes is what the other receives.
mod Driving
mod Gamepad
mod Witnesses
