-- ===== src/Safety/Guard.antt =====
-- ws/src/warehouse_safety/warehouse_safety/guard_logic.py: the reflex decisions of the Emergency
-- Guardian (`evaluate`), the displacement gate and the stop flag of one robot.
-- `math.hypot` is the parameter `hypot`. A parameter that the source declares as `float | None` is
-- an `Option Float`.
pub mod Stops
use miniature_warehouse_robo.Base.{
  ℕ, String, Bool, true, false, not, Option, none, some, List, [], ◌∷◌, ◌++◌, ◌&&◌, ◌||◌, ◌==◌, any,
  if◌then◌else◌,
}
use miniature_warehouse_robo.Base.Float.{Float, is_finite, is_nan, flt, fsub, fabs, fzero}
use miniature_warehouse_robo.Safety.Limits.{battery_is_critical}

pub record BotState : Type 0 where
  pub bot : String
  pub x : Option Float
  pub y : Option Float
  pub battery_pct : Option Float
  pub blocked_duration : Float
  pub pose_age : Option Float
  pub odom_disp_since_pose : Option Float
  pub odom_dyaw_since_pose : Option Float
  pub operator_stop_requested : Bool
  pub scan_age : Option Float
  pub odom_seen : Bool
  pub terrain_source : Option String
  pub terrain_verdict : Option String
  pub terrain_health_epoch : Option ℕ

pub data Action : Type 0 where
  estop recovery : Action

pub data Reason : Type 0 where
  near_collision battery_critical blocked_timeout pose_stale operator_stop_request scan_stale
        terrain_health :
      Reason

-- The `detail` dictionaries, one constructor for each set of keys.
pub data Detail : Type 0 where
  proximity : Float → String → List (String × Float × Float) → Detail
  pose_freshness : Option Float → Float → Detail
  scan_freshness : Option Float → Float → Detail
  terrain : Option String → String → Option ℕ → Detail

pub record Decision : Type 0 where
  pub bot : String
  pub action : Action
  pub reason : Reason
  pub detail : Option Detail

-- The keyword arguments of `evaluate`.
pub record Thresholds : Type 0 where
  pub distance_threshold : Float
  pub blocked_timeout : Float
  pub pose_freshness_timeout : Float
  pub scan_freshness_timeout : Float
  pub pose_gate_motion_epsilon : Option Float
  pub pose_gate_angular_epsilon : Option Float

unfoldable pub distance : (Float → Float → Float) → Float → Float → Float → Float → Float
distance hypot ax ay bx by = hypot (fsub ax bx) (fsub ay by)

-- `_has_pose`, which hands the two coordinates on.
pub has_pose : Option Float → Option Float → Option (Float × Float)
has_pose none y = none
has_pose (some x) none = none
has_pose (some x) (some y) = if is_finite x && is_finite y then some (x, y) else none

unfoldable pub gate_exceeded : Float → Float → Float → Float → Bool
gate_exceeded motion angular disp dyaw =
    if not (is_finite motion && is_finite angular)
    then true
    else if not (is_finite disp && is_finite dyaw)
    then true
    else flt motion disp || flt angular (fabs dyaw)

unfoldable pub pose_gate_open : BotState → Option Float → Option Float → Bool
pose_gate_open b none angular = true
pose_gate_open b (some motion) none = true
pose_gate_open b (some motion) (some angular) =
    if not (is_finite motion && is_finite angular) then true else elim b.odom_disp_since_pose [
      | none ↦ true
      | some disp ↦ elim b.odom_dyaw_since_pose [
        | none ↦ true
        | some dyaw ↦ gate_exceeded motion angular disp dyaw
      ]
    ]

pub age_is_unknown : Option Float → Bool
age_is_unknown none = true
age_is_unknown (some age) = is_nan age || flt age fzero

reportable_age : Option Float → Option Float
unfolding age_is_unknown
reportable_age none = none
reportable_age (some age) =
    if age_is_unknown (some age) || not (is_finite age) then none else some age

unfoldable pub validate_scan_freshness_timeout : Float → Option Float
validate_scan_freshness_timeout value =
    if not (is_finite value) || not (flt fzero value) then none else some value

abbrev stop_when : Bool → String → Action → Reason → Option Detail → List Decision
stop_when test bot action reason detail =
    if test
    then record { bot = bot; action = action; reason = reason; detail = detail } ∷ []
    else []

-- The coordinates and the distance of two robots nearer than the threshold.
abbrev near_positions :
    (Float → Float → Float)
    → Float
    → Option (Float × Float)
    → Option (Float × Float)
    → Option (Float × (Float × Float) × (Float × Float))
near_positions hypot threshold none q = none
near_positions hypot threshold (some p) none = none
near_positions hypot threshold (some (ax, ay)) (some (bx, by)) =
    let d = distance hypot ax ay bx by in
    if flt d threshold then some (d, (ax, ay), (bx, by)) else none

pub near :
    (Float → Float → Float)
    → Float
    → BotState
    → BotState
    → Option (Float × (Float × Float) × (Float × Float))
unfolding has_pose distance
near hypot threshold a b = near_positions hypot threshold (has_pose a.x a.y) (has_pose b.x b.y)

-- (1) proximity: both robots stop, each detail names the partner.
pub proximity_rule : (Float → Float → Float) → Float → BotState → BotState → List Decision
proximity_rule hypot threshold a b = elim (near hypot threshold a b) [
  | none ↦ []
  | some (d, (ax, ay), (bx, by)) ↦
      let positions : List (String × Float × Float) = (a.bot, ax, ay) ∷ (b.bot, bx, by) ∷ [] in
      stop_when true a.bot estop near_collision (some (proximity d b.bot positions))
      ++ stop_when true b.bot estop near_collision (some (proximity d a.bot positions))
]

-- (2) critical battery; NaN and no reading do not stop.
unfoldable pub battery_is_low : Option Float → Bool
unfolding battery_is_critical
battery_is_low none = false
battery_is_low (some pct) = is_finite pct && battery_is_critical pct

pub battery_rule : BotState → List Decision
battery_rule b = stop_when (battery_is_low b.battery_pct) b.bot estop battery_critical none

-- (3) blocked for too long: an event only.
pub blocked_rule : Float → BotState → List Decision
blocked_rule timeout b =
    stop_when (flt timeout b.blocked_duration) b.bot recovery blocked_timeout none

-- (4) pose freshness, behind the displacement gate.
pub pose_is_stale : Float → Option Float → Option Float → BotState → Option Float → Bool
unfolding age_is_unknown pose_gate_open
pose_is_stale timeout motion angular b none = false
pose_is_stale timeout motion angular b (some age) =
    (age_is_unknown (some age) || flt timeout age) && pose_gate_open b motion angular

pub pose_rule : Float → Option Float → Option Float → BotState → List Decision
pose_rule timeout motion angular b =
    stop_when (pose_is_stale timeout motion angular b b.pose_age) b.bot estop pose_stale
      (some (pose_freshness (reportable_age b.pose_age) timeout))

-- (5) the operator's latched stop.
pub operator_rule : BotState → List Decision
operator_rule b = stop_when b.operator_stop_requested b.bot estop operator_stop_request none

-- (6) scan liveness; a scan that never came counts only if odometry shows that the robot lives.
pub scan_is_stale : Float → Bool → Option Float → Bool
unfolding age_is_unknown
scan_is_stale timeout odom_seen none = odom_seen
scan_is_stale timeout odom_seen (some age) =
    if age_is_unknown (some age) then odom_seen else flt timeout age

pub scan_rule : Float → BotState → List Decision
scan_rule timeout b =
    stop_when (scan_is_stale timeout b.odom_seen b.scan_age) b.bot estop scan_stale
      (some (scan_freshness (reportable_age b.scan_age) timeout))

-- (7) terrain health, on the spelling of the verdict.
pub terrain_is_bad : Bool → Option String → Bool
terrain_is_bad odom_seen none = false
terrain_is_bad odom_seen (some verdict) =
    if verdict == "OK" then false else if verdict == "ABSENT" && not odom_seen then false else true

pub terrain_rule : BotState → List Decision
terrain_rule b = elim b.terrain_verdict [
  | none ↦ []
  | some verdict ↦
      stop_when (terrain_is_bad b.odom_seen (some verdict)) b.bot estop terrain_health
        (some (terrain b.terrain_source verdict b.terrain_health_epoch))
]

-- `for b in (bot_a, bot_b)`
abbrev per_bot : (BotState → List Decision) → BotState → BotState → List Decision
per_bot rule a b = rule a ++ rule b

unfoldable pub evaluate : (Float → Float → Float) → Thresholds → BotState → BotState → List Decision
evaluate hypot t a b =
    proximity_rule hypot t.distance_threshold a b
    ++ (per_bot battery_rule a b
        ++ (per_bot (blocked_rule t.blocked_timeout) a b
            ++ (per_bot
                  (pose_rule t.pose_freshness_timeout t.pose_gate_motion_epsilon
                    t.pose_gate_angular_epsilon)
                  a b
                ++ (per_bot operator_rule a b
                    ++ (per_bot (scan_rule t.scan_freshness_timeout) a b
                        ++ per_bot terrain_rule a b)))))

-- `d.action == "estop"`
abbrev pub is_estop : Action → Bool
is_estop estop = true
is_estop recovery = false

unfoldable pub stop_requested_for : List Decision → String → Bool
unfolding any
stop_requested_for decisions bot = any (λ d. d.bot == bot && is_estop d.action) decisions
