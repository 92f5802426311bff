-- ===== src/Tools/Forward.antt =====
-- `dispatch` and `_maybe_forward` of tools.py and `plan_nav2_request` of nav2_client.py of
-- ws/src/warehouse_mcp_server/warehouse_mcp_server: from a raw call to the request to the Nav2 bridge.
pub mod Kept
pub mod Errors
pub mod Holds
use miniature_warehouse_robo.Base.{
  ℕ, String, Bool, true, false, not, ◌||◌, ◌==◌, Option, none, some, List, [], ◌∷◌, is_some,
  if◌then◌else◌,
}
use miniature_warehouse_robo.Base.Dict.{has}
use miniature_warehouse_robo.Base.Float.{Float}
use miniature_warehouse_robo.Tools.Calls.{
  DispatchArgs, Call, Payload, refused, gate_rejected, no_active_task, unknown_action,
  unknown_escalation_id, already_resolved, unknown_starter, unknown_tool, missing_gen_id,
  bad_arguments, dispatched, cancelled, queue, charging, escalated, negotiating, Outcome, error,
  was_rejected, Output, audit, WarehouseTools, Reading, invoke,
}

-- A POST to /api/v1/navigate, /api/v1/wait or /api/v1/stop.
pub data Nav2Request : Type 0 where
  navigate : String → String → Option String → Nav2Request
  wait : String → Float → Nav2Request
  stop : String → Nav2Request

abbrev plan_wait : String → Option Float → Option Nav2Request
plan_wait robot none = none
plan_wait robot (some duration) = some (wait robot duration)

abbrev plan_navigate : String → Option String → Option String → Option Nav2Request
plan_navigate robot none via = none
plan_navigate robot (some destination) via = some (navigate robot destination via)

abbrev plan_dispatch : Option String → DispatchArgs → Option Nav2Request
plan_dispatch none a = none
plan_dispatch (some robot) a =
    if a.action == "wait" then plan_wait robot a.duration else plan_navigate robot a.dropoff a.via

abbrev plan_stop : Option String → Option Nav2Request
plan_stop none = none
plan_stop (some robot) = some (stop robot)

-- The request of a result; a result names its tool.
unfoldable pub plan_nav2_request : Payload → Option Nav2Request
plan_nav2_request (dispatched task_id a) = plan_dispatch a.robot a
plan_nav2_request (charging task_id robot) = some (navigate robot "charging_station" none)
plan_nav2_request (cancelled task_id robot) = plan_stop robot
plan_nav2_request (queue tasks) = none
plan_nav2_request (escalated id action new_robot reason) = none
plan_nav2_request (negotiating seq reference starter context) = none
plan_nav2_request (refused why) = none
plan_nav2_request (gate_rejected reason) = none
plan_nav2_request (no_active_task robot) = none
plan_nav2_request (unknown_action action) = none
plan_nav2_request unknown_escalation_id = none
plan_nav2_request already_resolved = none
plan_nav2_request unknown_starter = none
plan_nav2_request unknown_tool = none
plan_nav2_request missing_gen_id = none
plan_nav2_request bad_arguments = none

-- `result.get("status") == "ok"`
unfoldable pub is_ok : Payload → Bool
is_ok (dispatched task_id a) = true
is_ok (cancelled task_id robot) = true
is_ok (queue tasks) = true
is_ok (charging task_id robot) = true
is_ok (escalated id action new_robot reason) = true
is_ok (negotiating seq reference starter context) = true
is_ok (refused why) = false
is_ok (gate_rejected reason) = false
is_ok (no_active_task robot) = false
is_ok (unknown_action action) = false
is_ok unknown_escalation_id = false
is_ok already_resolved = false
is_ok unknown_starter = false
is_ok unknown_tool = false
is_ok missing_gen_id = false
is_ok bad_arguments = false

unfoldable pub maybe_forward : Bool → Payload → Option Nav2Request
unfolding is_ok plan_nav2_request
maybe_forward has_forwarder result =
    if not has_forwarder || not (is_ok result) then none else plan_nav2_request result

abbrev pub tool_names : List String
tool_names =
    "dispatch_task" ∷ "cancel_task" ∷ "get_fleet_status" ∷ "get_task_queue" ∷ "send_to_charging"
    ∷ "escalation_response" ∷ "start_negotiation" ∷ []

-- What `dispatch` returns, logs and sends, and the request that it forwards.
pub record Reply : Type 0 where
  pub tools : WarehouseTools
  pub payload : Payload
  pub outputs : List Output
  pub forwarded : Option Nav2Request

abbrev pub failed : WarehouseTools → Outcome → Payload → Reply
failed t outcome payload = record {
  tools = t;
  payload = payload;
  outputs = audit outcome payload ∷ [];
  forwarded = none;
}

-- `call` is the tool with its arguments; `none` is the `TypeError` if they do not bind to its parameters.
abbrev pub called : Reading → Bool → WarehouseTools → ℕ → Option String → Option Call → Reply
called r has_forwarder t gen_id key none = failed t error bad_arguments
called r has_forwarder t gen_id key (some call) =
    let (t', payload, outputs) = invoke r t gen_id key call in
    record {
      tools = t';
      payload = payload;
      outputs = outputs;
      forwarded = maybe_forward has_forwarder payload;
    }

abbrev pub with_gen :
    Reading → Bool → WarehouseTools → Option ℕ → Option String → Option Call → Reply
with_gen r has_forwarder t none key call = failed t was_rejected missing_gen_id
with_gen r has_forwarder t (some gen_id) key call = called r has_forwarder t gen_id key call

-- `bind` gives the tool of a name the arguments of the message.
unfoldable pub dispatch :
    Reading
    → Bool
    → WarehouseTools
    → String
    → Option ℕ
    → Option String
    → (String → Option Call)
    → Reply
unfolding has invoke maybe_forward
dispatch r has_forwarder t name gen_id key bind =
    if not (has tool_names name)
    then failed t error unknown_tool
    else with_gen r has_forwarder t gen_id key (bind name)
