-- ===== src/Lib.antt =====
-- Miniature warehouse robotics: a verification library for the safety layer, the governance layer,
-- the operator link, the gamepad and the keyboard, the motor driver and the aisle locks of the
-- two-robot warehouse. The source is Python under ws/src; the models are total functions.
--
-- The parts, and the files that model them.
-- - Safety.Limits: ws/src/warehouse_interfaces/warehouse_interfaces/safety.py (clamp_velocity, the
--   battery scale and limits). Every other part reads the battery through it.
-- - Safety.Guard: guard_logic.py of ws/src/warehouse_safety/warehouse_safety, the function `evaluate`
--   with one definition for each of its seven rules, and `stop_requested_for`.
-- - Safety.Motion: BlockTracker and PoseGateTracker of guard_logic.py, which feed `evaluate`.
-- - Safety.Latches: EdgeLatch and OperatorStopLatch of guard_logic.py.
-- - Safety.Health: sensor_health.py and `coverage_observation` of terrain_health.py.
-- - Safety.Guardian: emergency_guardian.py, the node that owns the trackers, the latches and the
--   monitors. A callback is a function on the record `Guardian`; `check_safety` is the 50 ms tick and
--   returns the messages that it sends as a list of `Output`.
-- - Gate.Freshness: `FreshnessThresholds` and `freshness_from_config` of policy_gate.py, and
--   `clear_after_from_config` of emergency_sync.py (ws/src/warehouse_mcp_server/warehouse_mcp_server).
-- - Gate.Checks and Gate.Policy: the pure checks and the class PolicyGate of policy_gate.py. A method
--   that holds the lock is one function on the record `PolicyGate`.
-- - Gate.Mirror: EmergencyLevelMirror of emergency_sync.py, paired with the gate that it drives: the
--   zero Twist that the Guardian sends comes in as `on_stop_signal`.
-- - Link.Parse, Link.Session, Link.Watchdog and Link.Approval: `parse_control_message` and the classes
--   of operator_link_logic.py of ws/src/warehouse_teleop/warehouse_teleop, with `joy_is_stale` of
--   joymap.py. Link.Values has the JSON values of the parser, in which an integer is apart from a
--   float.
-- - Driver.Clamp, Driver.Core, Driver.StopState and Driver.Node: clamp.py, driver_core.py,
--   stop_state.py and driver_node.py of ws/src/warehouse_m1_driver/warehouse_m1_driver. A call of the
--   backend is a `Frame`; `handle` is a callback of the node on the record `M1DriverCore`.
-- - Teleop.Joymap, Teleop.Estop and Teleop.Node: joymap.py and teleop_joy.py of
--   ws/src/warehouse_teleop/warehouse_teleop, from a sample of the gamepad to the twist and the stop.
-- - Teleop.Keymap and Teleop.Keyboard: keymap.py and teleop_keyboard.py beside them.
-- - Traffic.Locks and Traffic.Node: traffic_logic.py and traffic_manager.py of
--   ws/src/warehouse_traffic/warehouse_traffic. A goal for the Nav2 bridge is an output.
-- - Tools.Replay, Tools.Calls and Tools.Forward: gen_check.py, tools.py and nav2_client.py of
--   ws/src/warehouse_mcp_server/warehouse_mcp_server, with the stores of
--   ws/src/warehouse_interfaces/warehouse_interfaces/stores.py. A tool call passes the generation check,
--   then PolicyGate, and at most one request goes on to the Nav2 bridge. A generation file whose text
--   is no number, on which the code raises, is left out.
-- - System: parts joined by their topics. System.Gamepad joins the gamepad and the Guardian by
--   /operator/stop_request, and System.Driving the Guardian and the driver by /bot{n}/stop_state. The
--   operator link has no node in the repository, and is joined to nothing here.
-- Each part has a child module for each group of theorems. The modules named Witnesses apply
-- the theorems at concrete inputs. Base holds what the parts share: Booleans and lists, integers over
-- the native numbers, floats, dictionaries and JSON values.
--
-- How the program is modelled.
-- - A float is NaN, an infinity or a whole number of millionths, with the orders of IEEE 754 and exact
--   sums: rounding is not modelled.
-- - A dictionary is an association list in the order of insertion, a set a list read through
--   membership. A dictionary entry that the source initialises with None is absent here.
-- - A task id is the number in its text. A reject reason and a verdict are constructors that are
--   spelled as the texts of the source.
-- - `none` stands for an exception where a constructor or a validation raises. The parser of the link
--   returns a `Result`, in which `raised` is an exception and `ignored` is None.
-- - Parameters, with the laws that a theorem uses as hypotheses: the functions of the module math,
--   str.lower, json.loads, the conversion of an integer to a float, the pydantic model of a coverage
--   payload, datetime.fromisoformat, the wall clock and the text of an event id, the readiness of the
--   Nav2 action server, and the snapshot of state.json.
-- - The products, quotients and magnitudes of the driver and of the gamepad are those of a record
--   `Arithmetic`, whatever they round to.
-- - Loops over lists are structural recursions, so no fuel is used anywhere.
--
-- Not modelled: the ROS wiring, log lines and parameter declarations of the nodes,
-- `yaw_from_quaternion`, the report of `get_fleet_status`, the virtual laser scan, the wheel odometry
-- and the terminal of the keyboard; and the other packages of ws/src (language-model bridge,
-- navigation and web bridges, orchestrator, perception, simulation).
pub mod Base
pub mod Driver
pub mod Gate
pub mod Link
pub mod Safety
pub mod System
pub mod Teleop
pub mod Tools
pub mod Traffic
