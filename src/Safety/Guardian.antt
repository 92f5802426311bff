-- ===== src/Safety/Guardian.antt =====
-- ws/src/warehouse_safety/warehouse_safety/emergency_guardian.py: the node's state, its callbacks
-- and the 50 ms tick, with `marshal_battery`, `build_event` and `build_abort` of guard_logic.py.
-- A dictionary that the node fills with `None` for each robot has no entry there. ROS, the clocks,
-- `json` and pydantic are parameters; the yaw of an odometry message comes ready.
pub mod Publish
pub mod Runs
pub mod Edges
use miniature_warehouse_robo.Base.{
  ℕ, suc, String, Bool, true, false, Option, none, some, List, [], ◌∷◌, ◌++◌, if◌then◌else◌,
}
use miniature_warehouse_robo.Base.Dict
use miniature_warehouse_robo.Base.Dict.{Dict, has, add}
use miniature_warehouse_robo.Base.Float.{Float, fadd, fsub, fzero, micro}
use miniature_warehouse_robo.Base.Json.{Json}
use miniature_warehouse_robo.Safety.Limits.{normalize_battery_percent}
use miniature_warehouse_robo.Safety.Guard.{
  BotState, Thresholds, Action, estop, recovery, Reason, Detail, Decision, evaluate,
  stop_requested_for,
}
use miniature_warehouse_robo.Safety.Motion.{
  MathLib, BlockTracker, PoseGateTracker, new_block_tracker, new_pose_gate, update, on_odom,
  on_pose, snapshot,
}
use miniature_warehouse_robo.Safety.Latches.{
  EdgeLatch, OperatorStopLatch, Key, new_latch, new_operator_latch, holds, rising, feed,
}
use miniature_warehouse_robo.Safety.Health
use miniature_warehouse_robo.Safety.Health.{
  SensorHealthMonitor, HealthReport, SourceVerdict, Coverage, coverage_observation, observe,
}

pub record Env : Type 0 where
  pub math : MathLib
  pub loads : String → Option Json
  pub parse_coverage : String → Option Coverage
  -- `time.time()` as read for the n-th event, and its `event_id`
  pub wall : ℕ → Float
  pub event_id : Float → ℕ → String

pub record Config : Type 0 where
  pub thresholds : Thresholds
  pub odom_freshness_timeout : Float
  pub battery_scale : String

pub record Guardian : Type 0 where
  pub seq : ℕ
  pub tracker : BlockTracker
  pub gate : PoseGateTracker
  pub latch : EdgeLatch
  pub op_latch : OperatorStopLatch
  pub pose : Dict (Float × Float)
  pub battery : Dict Float
  pub blocked : Dict Float
  pub last_pose_t : Dict Float
  pub last_scan_t : Dict Float
  pub odom_seen : List String
  pub terrain : Dict SensorHealthMonitor

-- The state after `__init__`, with the monitors that the configuration arms.
pub new_guardian : Dict SensorHealthMonitor → Guardian
unfolding new_block_tracker new_pose_gate new_latch new_operator_latch
new_guardian monitors = record {
  seq = 0;
  tracker = new_block_tracker;
  gate = new_pose_gate;
  latch = new_latch;
  op_latch = new_operator_latch;
  pose = [];
  battery = [];
  blocked = [];
  last_pose_t = [];
  last_scan_t = [];
  odom_seen = [];
  terrain = monitors;
}

abbrev pub terrain_source : String
terrain_source = "cliff_scan"

abbrev pub stop_state_valid_window : Float
stop_state_valid_window = micro 500_000

pub handle_pose : Env → Guardian → String → Float → Float → Float → Guardian
handle_pose env g bot x y now =
    let (tracker', duration) = update env.math g.tracker bot x y now in
    record g {
      pose = Dict.put g.pose bot (x, y);
      last_pose_t = Dict.put g.last_pose_t bot now;
      tracker = tracker';
      blocked = Dict.put g.blocked bot duration;
      gate = on_pose g.gate bot;
    }

pub handle_odom : Env → Guardian → String → Float → Float → Float → Float → Guardian
handle_odom env g bot x y yaw now = record g {
  odom_seen = add g.odom_seen bot;
  gate = on_odom env.math g.gate bot x y yaw now;
}

pub handle_scan : Guardian → String → Float → Guardian
handle_scan g bot now = record g { last_scan_t = Dict.put g.last_scan_t bot now }

abbrev or_same : SensorHealthMonitor → Option SensorHealthMonitor → SensorHealthMonitor
or_same m none = m
or_same m (some m') = m'

pub handle_terrain_coverage : Env → Guardian → String → String → Float → Guardian
handle_terrain_coverage env g bot payload now = elim (Dict.get g.terrain bot) [
  | none ↦ g
  | some m ↦ record g {
    terrain = Dict.put g.terrain bot (
        or_same m (observe m terrain_source (coverage_observation env.parse_coverage payload now)));
  }
]

-- A reading that the normaliser refuses keeps the last good one.
pub marshal_battery : Option Float → Float → String → Option Float
marshal_battery prev raw scale = elim (normalize_battery_percent raw scale) [
  | none ↦ prev
  | some pct ↦ some pct
]

pub handle_battery : Config → Guardian → String → Float → Guardian
handle_battery cfg g bot raw =
    elim (marshal_battery (Dict.get g.battery bot) raw cfg.battery_scale) [
      | none ↦ g
      | some pct ↦ record g { battery = Dict.put g.battery bot pct }
    ]

pub handle_operator_stop : Env → Guardian → String → Guardian
handle_operator_stop env g raw = record g { op_latch = (feed env.loads g.op_latch raw).0 }

abbrev age : Option Float → Float → Option Float
age none now = none
age (some t) now = some (fsub now t)

abbrev first_of_pair : Option (Float × Float) → Option Float
first_of_pair none = none
first_of_pair (some (x, y)) = some x

abbrev second_of_pair : Option (Float × Float) → Option Float
second_of_pair none = none
second_of_pair (some (x, y)) = some y

abbrev or_zero : Option Float → Float
or_zero none = fzero
or_zero (some v) = v

-- The verdict's name and the epoch that a report puts into the robot's state.
abbrev verdict_name : Option HealthReport → Option String
verdict_name none = none
verdict_name (some r) = elim (Dict.get r.verdicts terrain_source) [
  | none ↦ none
  | some v ↦ some (Health.name v)
]

abbrev report_epoch : Option HealthReport → Option ℕ
report_epoch none = none
report_epoch (some r) = some r.health_epoch

abbrev report_source : Option HealthReport → Option String
report_source none = none
report_source (some r) = some terrain_source

-- `monitor.evaluate(now)`: the judgement, and the monitors after it.
pub judge : Guardian → String → Float → Guardian × Option HealthReport
judge g bot now = elim (Dict.get g.terrain bot) [
  | none ↦ (g, none)
  | some m ↦
      let (m', report) = Health.evaluate m now in
      (record g { terrain = Dict.put g.terrain bot m' }, some report)
]

pub bot_state : Config → Guardian → String → Float → Guardian × BotState
bot_state cfg g bot now =
    let (g', report) = judge g bot now in
    let (disp, dyaw) = snapshot g.gate bot now cfg.odom_freshness_timeout in
    (
      g',
      record {
        bot = bot;
        x = first_of_pair (Dict.get g.pose bot);
        y = second_of_pair (Dict.get g.pose bot);
        battery_pct = Dict.get g.battery bot;
        blocked_duration = or_zero (Dict.get g.blocked bot);
        pose_age = age (Dict.get g.last_pose_t bot) now;
        odom_disp_since_pose = disp;
        odom_dyaw_since_pose = dyaw;
        operator_stop_requested = g.op_latch.engaged;
        scan_age = age (Dict.get g.last_scan_t bot) now;
        odom_seen = has g.odom_seen bot;
        terrain_source = report_source report;
        terrain_verdict = verdict_name report;
        terrain_health_epoch = report_epoch report;
      },
    )

-- The frozen `/emergency/event`.
pub record Event : Type 0 where
  pub event_id : String
  pub robot : String
  pub reason : Reason
  severity : String
  action_taken : List String
  pub timestamp : Float
  requires_llm_review : Bool
  pub detail : Option Detail

build_event : String → String → Reason → Float → List String → Option Detail → Event
build_event id robot reason timestamp actions detail = record {
  event_id = id;
  robot = robot;
  reason = reason;
  severity = "critical";
  action_taken = actions;
  timestamp = timestamp;
  requires_llm_review = true;
  detail = detail;
}

-- What the node sends.
pub data Output : Type 0 where
  cancel_goals : String → Output
  zero_twist : String → Output
  event : Event → Output
  abort : Reason → String → String → Output
  stop_state : String → Bool → Float → Output

-- `_publish_event` with the number that it takes.
unfoldable pub publish_event : Env → ℕ → Decision → List String → Bool → List Output
unfolding build_event
publish_event env n d actions is_estop =
    let now = env.wall n in
    let id = env.event_id now n in
    event (build_event id d.bot d.reason now actions d.detail)
    ∷ (if is_estop then abort d.reason d.bot id ∷ [] else [])

-- One decision of the loop in `_check_safety`: the outputs.
abbrev pub act : Env → (String → Bool) → ℕ → Decision → Action → Bool → List Output
act env ready n d estop emit =
    (if ready d.bot then cancel_goals d.bot ∷ [] else [])
    ++ (zero_twist d.bot
        ∷ (if emit
            then publish_event env n d ("nav2_goal_cancel" ∷ "cmd_vel_stop" ∷ []) true
            else []))
act env ready n d recovery emit =
    if emit then publish_event env n d ("nav2_recovery" ∷ []) false else []

-- The loop: `seq` is raised before each event.
unfoldable pub act_all : Env → (String → Bool) → List Key → ℕ → List Decision → ℕ × List Output
unfolding publish_event
act_all env ready fresh seq [] = (seq, [])
act_all env ready fresh seq (d ∷ ds) =
    let emit = holds fresh (d.bot, d.reason) in
    let seq' = if emit then suc seq else seq in
    let (last, rest) = act_all env ready fresh seq' ds in
    (last, act env ready seq' d d.action emit ++ rest)

unfoldable pub publish_stop_state : List Decision → Float → List Output
publish_stop_state decisions now =
    let valid_until = fadd now stop_state_valid_window in
    stop_state "bot1" (stop_requested_for decisions "bot1") valid_until
    ∷ stop_state "bot2" (stop_requested_for decisions "bot2") valid_until
    ∷ []

-- The decisions of a tick, and the node after both monitors have judged.
pub decide : Env → Config → Guardian → Float → Guardian × List Decision
decide env cfg g now =
    let (g', a) = bot_state cfg g "bot1" now in
    let (g'', b) = bot_state cfg g' "bot2" now in (g'', evaluate env.math.hypot cfg.thresholds a b)

unfoldable pub check_safety :
    Env → Config → (String → Bool) → Guardian → Float → Guardian × List Output
check_safety env cfg ready g now =
    let (g', decisions) = decide env cfg g now in
    let (latch', fresh) = rising g'.latch decisions in
    let (seq', outputs) = act_all env ready fresh g'.seq decisions in
    (record g' { latch = latch'; seq = seq' }, outputs ++ publish_stop_state decisions now)
