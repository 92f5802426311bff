-- ===== src/Teleop/Node.antt =====
-- teleop_joy.py of ws/src/warehouse_teleop/warehouse_teleop: the node that publishes the twist. A clock
-- reading stands in the event, in seconds. The operator's stop is published where the parameter enables it.
pub mod Rearm
use miniature_warehouse_robo.Base.{
  String, Bool, true, false, not, Option, none, some, List, [], ◌∷◌, ◌++◌, if◌then◌else◌,
}
use miniature_warehouse_robo.Base.Int.{ℤ}
use miniature_warehouse_robo.Base.Float.{Float, inf, fsub}
use miniature_warehouse_robo.Link.Session.{joy_is_stale}
use miniature_warehouse_robo.Driver.Clamp.{Arithmetic}
use miniature_warehouse_robo.Teleop.Joymap.{
  Twist, zero_twist, JoyParams, joy_to_twist, apply_joy_freshness,
}
use miniature_warehouse_robo.Teleop.Estop.{
  OperatorEstopConfig, OperatorEstopState, new_estop, EstopAction, none_action, engage, clear,
  operator_estop_step, operator_estop_disarm,
}

pub record Setup : Type 0 where
  pub arithmetic : Arithmetic
  pub params : JoyParams
  pub estop_cfg : OperatorEstopConfig
  pub joy_timeout_s : Float
  pub publishes_stop : Bool

pub record TeleopJoy : Type 0 where
  pub latest : Twist
  pub last_joy_time : Option Float
  pub estop_state : OperatorEstopState
  pub motion_allowed : Bool

unfoldable pub new_teleop : TeleopJoy
new_teleop = record {
  latest = zero_twist;
  last_joy_time = none;
  estop_state = new_estop;
  motion_allowed = false;
}

-- `OPERATOR_STOP_PAYLOAD`
abbrev pub engage_payload : String
engage_payload = "{\"action\": \"engage\"}"

abbrev pub clear_payload : String
clear_payload = "{\"action\": \"clear\"}"

-- The payload that is published on /operator/stop_request, if any.
abbrev pub on_estop_action : Setup → EstopAction → List String
on_estop_action s none_action = []
on_estop_action s engage = if s.publishes_stop then engage_payload ∷ [] else []
on_estop_action s clear = if s.publishes_stop then clear_payload ∷ [] else []

unfoldable pub on_joy : Setup → TeleopJoy → List Float → List ℤ → Float → TeleopJoy × List String
unfolding joy_to_twist operator_estop_step
on_joy s t axes buttons now =
    let (estop, action, allowed) = operator_estop_step s.estop_cfg t.estop_state buttons axes in
    (
      record {
        latest = joy_to_twist s.arithmetic s.params axes buttons;
        last_joy_time = some now;
        estop_state = estop;
        motion_allowed = allowed;
      },
      on_estop_action s action,
    )

abbrev pub elapsed_since : Option Float → Float → Float
elapsed_since none now = inf
elapsed_since (some last) now = fsub now last

-- Returns the node and the twist that it publishes.
unfoldable pub on_timer : Setup → TeleopJoy → Float → TeleopJoy × Twist
unfolding joy_is_stale operator_estop_disarm apply_joy_freshness
on_timer s t now =
    let elapsed = elapsed_since t.last_joy_time now in
    let t' =
      if joy_is_stale elapsed s.joy_timeout_s
      then record t { estop_state = operator_estop_disarm t.estop_state; motion_allowed = false }
      else t in
    let twist = apply_joy_freshness t'.latest elapsed s.joy_timeout_s in
    (t', if not t'.motion_allowed then zero_twist else twist)

pub data Event : Type 0 where
  joy : List Float → List ℤ → Float → Event
  timer : Float → Event

-- The node after the event, and what it publishes on /operator/stop_request.
unfoldable pub handle : Setup → TeleopJoy → Event → TeleopJoy × List String
unfolding on_joy on_timer
handle s t (joy axes buttons now) = on_joy s t axes buttons now
handle s t (timer now) = ((on_timer s t now).0, [])

abbrev pub handle_all : Setup → TeleopJoy → List Event → TeleopJoy
handle_all s t [] = t
handle_all s t (e ∷ es) = handle_all s (handle s t e).0 es

-- What the node publishes on /operator/stop_request over the events, in their order.
unfoldable pub published : Setup → TeleopJoy → List Event → List String
unfolding handle
published s t [] = []
published s t (e ∷ es) = (handle s t e).1 ++ published s (handle s t e).0 es
