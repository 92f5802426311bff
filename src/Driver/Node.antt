-- ===== src/Driver/Node.antt =====
-- driver_node.py of ws/src/warehouse_m1_driver/warehouse_m1_driver: the callbacks of the node. Each
-- reads the monotonic clock once; the reading stands in the event.
pub mod History
pub mod Runs
use miniature_warehouse_robo.Base.{String, Bool, true, false, Option, List, [], ◌∷◌, if◌then◌else◌}
use miniature_warehouse_robo.Base.Float.{Float}
use miniature_warehouse_robo.Base.Json.{Json}
use miniature_warehouse_robo.Driver.Clamp.{Arithmetic}
use miniature_warehouse_robo.Driver.Core.{
  M1DriverCore, Frame, new_core, on_stop_state, on_cmd_vel, on_watchdog_tick, shutdown_sequence,
}
use miniature_warehouse_robo.Driver.StopState.{decode_stop_state}

-- The libraries that the node calls, and its parameters.
pub record Setup : Type 0 where
  pub arithmetic : Arithmetic
  pub loads : String → Option Json
  pub cmd_vel_timeout_s : Float
  pub stop_overlay_enabled : Bool
  pub stop_state_max_validity_s : Float
  pub wheel_scale : Float
  pub yaw_scale : Float
  pub lateral_enabled : Bool

pub data Event : Type 0 where
  cmd_vel : Float → Float → Float → Float → Event
  stop_state : String → Float → Event
  watchdog : Float → Event
  shut_down : Event

unfoldable pub started : Setup → M1DriverCore
unfolding new_core
started s =
    new_core s.cmd_vel_timeout_s s.stop_overlay_enabled s.wheel_scale s.yaw_scale s.lateral_enabled

-- Without the overlay the node does not subscribe to stop_state.
unfoldable pub handle : Setup → M1DriverCore → Event → M1DriverCore × List Frame
unfolding on_stop_state on_cmd_vel on_watchdog_tick shutdown_sequence decode_stop_state
handle s c (cmd_vel vx vy wz now) = on_cmd_vel s.arithmetic c vx vy wz now
handle s c (stop_state payload now) =
    let (stop_requested, valid_until) =
      decode_stop_state s.loads payload now s.stop_state_max_validity_s in
    (if c.stop_overlay_enabled then on_stop_state c stop_requested valid_until else c, [])
handle s c (watchdog now) = let (c', braked, frames) = on_watchdog_tick c now in (c', frames)
handle s c shut_down = shutdown_sequence c

-- The core after the events, of which the newest comes first.
unfoldable pub core_after : Setup → List Event → M1DriverCore
unfolding started handle
core_after s [] = started s
core_after s (e ∷ past) = (handle s (core_after s past) e).0
