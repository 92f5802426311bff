-- ===== src/System/Witnesses.antt =====
-- The theorems on the gamepad, the Guardian and the driver at concrete inputs.
use miniature_warehouse_robo.Base.{
  String, ◌≡◌, refl, Bool, true, false, Option, none, some, List, [], ◌∷◌, ◌++◌, ◌==◌,
  if◌then◌else◌,
}
use miniature_warehouse_robo.Base.Int.{pos, negsuc}
use miniature_warehouse_robo.Base.Float.{units, micro, fzero, fadd}
use miniature_warehouse_robo.Base.Json.{Json, str, obj, field, end, member}
use miniature_warehouse_robo.Safety.Limits.{battery_scale_percent}
use miniature_warehouse_robo.Safety.Latches.Operator.{last_action}
use miniature_warehouse_robo.Safety.Latches.{engage, parse_operator_stop_action}
use miniature_warehouse_robo.Safety.Guardian.{
  Env, Config, Guardian, new_guardian, check_safety, stop_state_valid_window,
}
use miniature_warehouse_robo.Safety.Guardian.Publish.{twisted}
use miniature_warehouse_robo.Safety.Guardian.Runs.{
  operator, battery, receive_all, payloads, engage_stops_fleet,
}
use miniature_warehouse_robo.Link.Watchdog.{engage_payload}
use miniature_warehouse_robo.Driver.Core.{brake}
use miniature_warehouse_robo.Driver.Node as Driver
use miniature_warehouse_robo.System.Driving.{states_of, state_json, guardian_stop_brakes}
use miniature_warehouse_robo.Teleop.Estop.{operator_estop_step}
use miniature_warehouse_robo.Teleop.Node as Teleop
use miniature_warehouse_robo.System.Gamepad.{action_json, gamepad_stop_reaches_fleet}

abbrev loads : String → Option Json
loads raw = if raw == engage_payload then some (obj (field "action" (str "engage") end)) else none

abbrev env : Env
env = record {
  math = record { hypot = λ x y. x; atan2 = λ y x. y; sin = λ x. x; cos = λ x. x };
  loads = loads;
  parse_coverage = λ payload. none;
  wall = λ n. fzero;
  event_id = λ t n. "evt";
}

abbrev cfg : Config
cfg = record {
  thresholds = record {
    distance_threshold = micro 150_000;
    blocked_timeout = units 10;
    pose_freshness_timeout = units 1;
    scan_freshness_timeout = units 1;
    pose_gate_motion_epsilon = none;
    pose_gate_angular_epsilon = none;
  };
  odom_freshness_timeout = units 1;
  battery_scale = battery_scale_percent;
}

abbrev ready : String → Bool
ready bot = true

-- A driver whose json.loads reads the one payload of the tick.
abbrev stop_json : Json
stop_json = state_json true (fadd (units 6) stop_state_valid_window)

abbrev driver : Driver.Setup
driver = record {
  arithmetic = record { hypot = λ x y. x; mul = λ x y. x; div = λ x y. x };
  loads = λ raw. if raw == "stop" then some stop_json else none;
  cmd_vel_timeout_s = units 1;
  stop_overlay_enabled = true;
  stop_state_max_validity_s = units 1;
  wheel_scale = units 1;
  yaw_scale = units 1;
  lateral_enabled = true;
}

abbrev dumps : Json → String
dumps j = "stop"

abbrev stopped : Guardian
stopped = receive_all env cfg (new_guardian []) (operator engage_payload ∷ [])

engage_recognised : last_action env.loads (payloads (operator engage_payload ∷ [])) ≡ some engage
unfolding last_action parse_operator_stop_action member
engage_recognised = refl

the_tick_stops : twisted (check_safety env cfg ready stopped (units 6)).1 "bot2" ≡ true
the_tick_stops =
    (engage_stops_fleet env cfg ready (new_guardian []) (operator engage_payload ∷ []) (units 6)
      engage_recognised).1

guardian_stop_brakes_example :
    let outputs = (check_safety env cfg ready stopped (units 6)).1 in
    (payload : String) × (states_of dumps outputs "bot2" ≡ payload ∷ [])
    × ((Driver.handle driver
          (Driver.core_after driver
            ((Driver.watchdog (units 6) ∷ []) ++ (Driver.stop_state payload (units 6) ∷ [])))
          (Driver.cmd_vel (units 1) fzero fzero (units 6))).1
        ≡ brake ∷ [])
guardian_stop_brakes_example =
    guardian_stop_brakes env cfg ready stopped (units 6) driver dumps
      (Driver.watchdog (units 6) ∷ []) [] (units 6) (units 1) fzero fzero (units 6) false refl refl
      refl the_tick_stops

-- A gamepad whose stop is pressed with the deadman held.
abbrev pad : Teleop.Setup
pad = record {
  arithmetic = driver.arithmetic;
  params = record {
    axis_linear_x = pos 0;
    axis_linear_y = pos 1;
    axis_angular = pos 2;
    deadman_button = pos 0;
    deadzone = micro 100_000;
    max_linear = micro 300_000;
    max_angular = units 1;
    invert_x = false;
    invert_y = false;
    invert_wz = false;
  };
  estop_cfg = record {
    deadman_button = pos 0;
    estop_button = pos 1;
    estop_button_alt = negsuc 0;
    clear_buttons = pos 2 ∷ [];
    axis_linear_x = pos 0;
    axis_linear_y = pos 1;
    axis_angular = pos 2;
    deadzone = micro 100_000;
  };
  joy_timeout_s = units 1;
  publishes_stop = true;
}

abbrev stop_pressed : List Teleop.Event
stop_pressed =
    Teleop.joy [] (pos 0 ∷ pos 0 ∷ pos 0 ∷ []) fzero
    ∷ Teleop.joy [] (pos 1 ∷ pos 1 ∷ pos 0 ∷ []) fzero
    ∷ []

abbrev two_payloads : String → Option Json
two_payloads raw =
    if raw == engage_payload
    then some (action_json "engage")
    else if raw == Teleop.clear_payload
    then some (action_json "clear")
    else none

pad_publishes :
    payloads (operator engage_payload ∷ battery "bot1" (units 50) ∷ [])
    ≡ Teleop.published pad Teleop.new_teleop stop_pressed
unfolding Teleop.published Teleop.handle Teleop.on_joy operator_estop_step Teleop.new_teleop
pad_publishes = refl

pad_latches : (Teleop.handle_all pad Teleop.new_teleop stop_pressed).estop_state.latched ≡ true
unfolding Teleop.handle Teleop.on_joy operator_estop_step Teleop.new_teleop
pad_latches = refl

gamepad_stop_reaches_fleet_example :
    let outputs =
      (check_safety
        (record env { loads = two_payloads })
        cfg
        ready
        (receive_all
          (record env { loads = two_payloads })
          cfg
          (new_guardian [])
          (operator engage_payload ∷ battery "bot1" (units 50) ∷ []))
        (units 6)).1 in
    (twisted outputs "bot1" ≡ true) × (twisted outputs "bot2" ≡ true)
gamepad_stop_reaches_fleet_example =
    gamepad_stop_reaches_fleet (record env { loads = two_payloads }) cfg ready (new_guardian []) pad
      stop_pressed (operator engage_payload ∷ battery "bot1" (units 50) ∷ []) (units 6) refl refl
      refl pad_publishes pad_latches
