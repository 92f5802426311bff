-- ===== src/Gate/Policy.antt =====
-- `PolicyGate` of ws/src/warehouse_mcp_server/warehouse_mcp_server/policy_gate.py. Each method that
-- holds the lock is one function on the gate, so concurrent calls are sequences of these functions.
-- A task id is the number in its text `nav_007`; the state store hands its snapshot in, and
-- `datetime.fromisoformat` is the parameter `parse_iso`.
pub mod Ops
pub mod Dispatch
pub mod Tasks
pub mod Destinations
use miniature_warehouse_robo.Base.{
  ℕ, suc, String, Bool, true, false, not, Option, none, some, List, [], ◌∷◌, ◌==◌, ◌&&◌, ◌||◌, eqb,
  is_some, if◌then◌else◌,
}
use miniature_warehouse_robo.Base.Dict
use miniature_warehouse_robo.Base.Dict.{Dict, has, add, discard}
use miniature_warehouse_robo.Base.Float.{Float, flt}
use miniature_warehouse_robo.Gate.Freshness.{FreshnessThresholds}
use miniature_warehouse_robo.Gate.Checks.{
  Reason, wait_requires_robot, state_timestamp_corrupt, charging_not_needed, rate_limit_s,
  charging_not_needed_above, check_location_known, check_same_location, check_battery,
  RobotSnapshot, check_robot_state, check_emergency, check_rate_limit, check_duplicate_destination,
}

-- state.json as the gate reads it: `timestamp` if it is a text, and the robots.
pub record FleetState : Type 0 where
  pub timestamp : Option String
  pub robots : Dict RobotSnapshot

pub record PolicyGate : Type 0 where
  pub freshness : FreshnessThresholds
  pub active_tasks : Dict ℕ
  pub dropoffs : Dict String
  pub emergency : List String
  pub last_cmd : Dict Float
  pub task_seq : ℕ

unfoldable pub new_gate : FreshnessThresholds → List String → PolicyGate
new_gate windows held = record {
  freshness = windows;
  active_tasks = [];
  dropoffs = [];
  emergency = held;
  last_cmd = [];
  task_seq = 0;
}

unfoldable pub set_emergency : PolicyGate → String → Bool → PolicyGate
set_emergency g robot true = record g { emergency = add g.emergency robot }
set_emergency g robot false = record g { emergency = discard g.emergency robot }

unfoldable pub is_in_emergency : PolicyGate → String → Bool
is_in_emergency g robot = has g.emergency robot

unfoldable pub snapshot_ts : (String → Option Float) → FleetState → Option Float
snapshot_ts parse_iso state = elim state.timestamp [ none ↦ none | some ts ↦ parse_iso ts ]

unfoldable pub timestamp_is_corrupt : (String → Option Float) → FleetState → Bool
timestamp_is_corrupt parse_iso state = elim state.timestamp [
  | none ↦ false
  | some ts ↦ not (ts == "") && not (is_some (parse_iso ts))
]

-- `if reason: return reason`, and on to the rest.
infixr 20 ◌<|>◌
abbrev pub ◌<|>◌ : Option Reason → Option Reason → Option Reason
none <|> rest = rest
some r <|> rest = some r

abbrev check_pickup : Option String → Option Reason
check_pickup none = none
check_pickup (some pickup) = check_location_known (some pickup)

abbrev wait_stage : Option String → Option Reason
wait_stage none = some wait_requires_robot
wait_stage (some robot) = none

unfoldable pub location_stage :
    Option String → Option String → Option String → String → Option Reason
location_stage robot pickup dropoff action =
    if not (action == "wait")
    then check_pickup pickup <|> check_location_known dropoff <|> check_same_location pickup dropoff
    else wait_stage robot

abbrev pub battery_of : Option RobotSnapshot → Option Float
battery_of none = none
battery_of (some snapshot) = snapshot.battery

unfoldable pub robot_stage :
    (String → Option Float) → PolicyGate → FleetState → Option String → Float → Option Reason
robot_stage parse_iso g state none now = none
robot_stage parse_iso g state (some robot) now =
    if timestamp_is_corrupt parse_iso state
    then some state_timestamp_corrupt
    else check_robot_state (Dict.get state.robots robot) now (snapshot_ts parse_iso state)
        g.freshness
      <|> check_battery (battery_of (Dict.get state.robots robot))
      <|> check_emergency (some robot) g.emergency
      <|> check_rate_limit (some robot) g.last_cmd now rate_limit_s

unfoldable pub destination_stage :
    PolicyGate → Option String → Option String → String → Option Reason
destination_stage g robot dropoff action =
    if action == "deliver" then check_duplicate_destination dropoff g.dropoffs robot else none

unfoldable pub validate_dispatch_inner :
    (String → Option Float)
    → PolicyGate
    → FleetState
    → Option String
    → Option String
    → Option String
    → String
    → Float
    → Option Reason
validate_dispatch_inner parse_iso g state robot pickup dropoff action now =
    location_stage robot pickup dropoff action
    <|> robot_stage parse_iso g state robot now
    <|> destination_stage g robot dropoff action

abbrev put_dropoff : Dict String → String → Option String → Dict String
put_dropoff dropoffs robot none = dropoffs
put_dropoff dropoffs robot (some dropoff) = Dict.put dropoffs robot dropoff

unfoldable pub register_task_inner :
    PolicyGate → Option String → Option String → Float → PolicyGate × ℕ
register_task_inner g none dropoff now = (record g { task_seq = suc g.task_seq }, suc g.task_seq)
register_task_inner g (some robot) dropoff now = (
  record g {
    task_seq = suc g.task_seq;
    active_tasks = Dict.put g.active_tasks robot (suc g.task_seq);
    last_cmd = Dict.put g.last_cmd robot now;
    dropoffs = put_dropoff g.dropoffs robot dropoff;
  },
  suc g.task_seq,
)

pub data DispatchResult : Type 0 where
  rejected : Reason → DispatchResult
  accepted : ℕ → DispatchResult

-- Register unless there is a reason not to.
abbrev pub register_unless :
    Option Reason → PolicyGate → Option String → Option String → Float → PolicyGate × DispatchResult
register_unless (some reason) g robot dropoff now = (g, rejected reason)
register_unless none g robot dropoff now =
    let (g', task_id) = register_task_inner g robot dropoff now in (g', accepted task_id)

unfoldable pub validate_and_register_dispatch :
    (String → Option Float)
    → PolicyGate
    → FleetState
    → Option String
    → Option String
    → Option String
    → String
    → Float
    → PolicyGate × DispatchResult
validate_and_register_dispatch parse_iso g state robot pickup dropoff action now =
    register_unless (validate_dispatch_inner parse_iso g state robot pickup dropoff action now) g
      robot dropoff now

unfoldable pub resolve_and_clear_active : PolicyGate → String → PolicyGate × Option ℕ
resolve_and_clear_active g robot = (
  record g { active_tasks = Dict.pop g.active_tasks robot; dropoffs = Dict.pop g.dropoffs robot },
  Dict.get g.active_tasks robot,
)

-- `next((r for r, tid in active_tasks.items() if tid == task_id), None)`
unfoldable pub owner_of : Dict ℕ → ℕ → Option String
owner_of [] task_id = none
owner_of ((robot, tid) ∷ rest) task_id =
    if eqb tid task_id then some robot else owner_of rest task_id

abbrev pub clear_owner : PolicyGate → Option String → PolicyGate × Option String
clear_owner g none = (g, none)
clear_owner g (some owner) = (
  record g { active_tasks = Dict.pop g.active_tasks owner; dropoffs = Dict.pop g.dropoffs owner },
  some owner,
)

unfoldable pub resolve_and_clear_by_task_id : PolicyGate → ℕ → PolicyGate × Option String
resolve_and_clear_by_task_id g task_id = clear_owner g (owner_of g.active_tasks task_id)

abbrev charged_enough : Option Float → Option Reason
charged_enough none = none
charged_enough (some battery) =
    if flt charging_not_needed_above battery then some charging_not_needed else none

pub validate_charging :
    (String → Option Float) → PolicyGate → FleetState → String → Float → Option Reason
validate_charging parse_iso g state robot now =
    if timestamp_is_corrupt parse_iso state
    then some state_timestamp_corrupt
    else check_robot_state (Dict.get state.robots robot) now (snapshot_ts parse_iso state)
        g.freshness
      <|> check_emergency (some robot) g.emergency
      <|> charged_enough (battery_of (Dict.get state.robots robot))

unfoldable pub validate_and_register_charging :
    (String → Option Float) → PolicyGate → FleetState → String → Float → PolicyGate × DispatchResult
validate_and_register_charging parse_iso g state robot now =
    register_unless (validate_charging parse_iso g state robot now) g (some robot)
      (some "charging_station") now
