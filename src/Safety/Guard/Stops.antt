-- ===== src/Safety/Guard/Stops.antt =====
-- When the reflex stops a robot.
use miniature_warehouse_robo.Base.{
  String, ◌≡◌, refl, Bool, true, false, not, ◌&&◌, ◌||◌, Option, none, some, List, ◌++◌, ◌==◌,
  arith, any-append, is_some, if◌then◌else◌, Option-cases, inl, inr,
}
use miniature_warehouse_robo.Base.Float.{
  Float, is_finite, is_nan, flt, fle, fsub, fabs, fzero, not-flt, is_finite-fabs,
}
use miniature_warehouse_robo.Safety.Limits.{battery_is_critical, battery_critical_pct}
use miniature_warehouse_robo.Safety.Guard.{
  BotState, Decision, Thresholds, evaluate, stop_requested_for, near, battery_is_low, pose_is_stale,
  scan_is_stale, terrain_is_bad, proximity_rule, battery_rule, blocked_rule, pose_rule,
  operator_rule, scan_rule, terrain_rule, pose_gate_open, gate_exceeded, age_is_unknown, has_pose,
  distance,
}

-- A critical battery, as far as its reading is finite.
pub battery_fault : Option Float → Bool
battery_fault none = false
battery_fault (some pct) = is_finite pct && fle pct battery_critical_pct

-- An age that is no reading of this clock, or above the limit.
abbrev overdue : Float → Float → Bool
overdue limit age = is_nan age || (flt age fzero || flt limit age)

-- Both epsilons and both totals since the last pose are finite, and neither total is above its epsilon.
parked : Option Float → Option Float → Option Float → Option Float → Bool
parked none angular disp dyaw = false
parked (some motion) none disp dyaw = false
parked (some motion) (some angular) none dyaw = false
parked (some motion) (some angular) (some disp) none = false
parked (some motion) (some angular) (some disp) (some dyaw) =
    (is_finite motion && is_finite angular)
    && ((is_finite disp && is_finite dyaw) && (fle disp motion && fle (fabs dyaw) angular))

-- A pose has come, it is overdue, and the robot is not known to be parked.
pub pose_fault : Thresholds → BotState → Bool
pose_fault t b = elim b.pose_age [
  | none ↦ false
  | some age ↦
      overdue t.pose_freshness_timeout age
      && not (
          parked t.pose_gate_motion_epsilon t.pose_gate_angular_epsilon b.odom_disp_since_pose
            b.odom_dyaw_since_pose)
]

-- No scan of a robot whose odometry has been seen, or one that is overdue. An age that is no reading
-- counts as no scan.
unfoldable pub scan_fault : Thresholds → BotState → Bool
scan_fault t b = elim b.scan_age [
  | none ↦ b.odom_seen
  | some age ↦
      (if is_nan age || flt age fzero then b.odom_seen else flt t.scan_freshness_timeout age)
]

-- A verdict on the terrain that is not OK; ABSENT counts only for a robot whose odometry has been seen.
pub terrain_fault : BotState → Bool
terrain_fault b = elim b.terrain_verdict [
  | none ↦ false
  | some verdict ↦ not (verdict == "OK") && (not (verdict == "ABSENT") || b.odom_seen)
]

-- The faults of one robot on its own, as the documentation lists them.
unfoldable pub own_fault : Thresholds → BotState → Bool
own_fault t b =
    battery_fault b.battery_pct
    || (pose_fault t b || (b.operator_stop_requested || (scan_fault t b || terrain_fault b)))

-- The number, if there is one and it is finite.
abbrev finite_value : Option Float → Option Float
finite_value none = none
finite_value (some x) = if is_finite x then some x else none

abbrev below :
    (Float → Float → Float)
    → Float
    → Option Float
    → Option Float
    → Option Float
    → Option Float
    → Bool
below hypot threshold (some ax) (some ay) (some bx) (some by) =
    flt (hypot (fsub ax bx) (fsub ay by)) threshold
below hypot threshold (some ax) (some ay) (some bx) none = false
below hypot threshold (some ax) (some ay) none by = false
below hypot threshold (some ax) none bx by = false
below hypot threshold none ay bx by = false

-- Both robots have a finite position, and their distance is below the threshold.
pub too_near : (Float → Float → Float) → Float → BotState → BotState → Bool
too_near hypot threshold a b =
    below hypot threshold (finite_value a.x) (finite_value a.y) (finite_value b.x)
      (finite_value b.y)

near-too_near :
    (hypot : Float → Float → Float) (threshold : Float) (a b : BotState)
    → is_some (near hypot threshold a b) ≡ too_near hypot threshold a b
unfolding near too_near has_pose distance
near-too_near hypot threshold a b = ground arith

not-gate_exceeded :
    (motion angular disp dyaw : Float)
    → is_finite motion ≡ true
    → is_finite angular ≡ true
    → gate_exceeded motion angular disp dyaw
      ≡ not ((is_finite disp && is_finite dyaw) && (fle disp motion && fle (fabs dyaw) angular))
unfolding gate_exceeded
not-gate_exceeded motion angular disp dyaw m a =
    ground (arith, not-flt motion disp, not-flt angular (fabs dyaw), is_finite-fabs dyaw)

pose_gate_open-parked :
    (b : BotState) (m a : Option Float)
    → pose_gate_open b m a ≡ not (parked m a b.odom_disp_since_pose b.odom_dyaw_since_pose)
unfolding pose_gate_open parked
pose_gate_open-parked b none a = refl
pose_gate_open-parked b (some m) none = refl
pose_gate_open-parked b (some m) (some a) = elim (Option-cases b.odom_disp_since_pose) [
  | inl none_d ↦ ground (arith, none_d)
  | inr (d, e) ↦ elim (Option-cases b.odom_dyaw_since_pose) [
    | inl none_w ↦ ground (arith, e, none_w)
    | inr (w, f) ↦ ground (arith, e, f, not-gate_exceeded m a d w)
  ]
]

pose_is_stale-fault :
    (t : Thresholds) (b : BotState)
    → pose_is_stale t.pose_freshness_timeout t.pose_gate_motion_epsilon t.pose_gate_angular_epsilon
        b b.pose_age
      ≡ pose_fault t b
unfolding pose_is_stale age_is_unknown pose_fault
pose_is_stale-fault t b = elim (Option-cases b.pose_age) [
  | inl never ↦ rw never
  | inr (age, e) ↦ rw (e, pose_gate_open-parked) (ground arith)
]

scan_is_stale-fault :
    (t : Thresholds) (b : BotState)
    → scan_is_stale t.scan_freshness_timeout b.odom_seen b.scan_age ≡ scan_fault t b
unfolding scan_is_stale age_is_unknown scan_fault
scan_is_stale-fault t b = ground arith

terrain_is_bad-fault :
    (b : BotState) → terrain_is_bad b.odom_seen b.terrain_verdict ≡ terrain_fault b
unfolding terrain_is_bad terrain_fault
terrain_is_bad-fault b = ground arith

pub battery_is_low-fault : (o : Option Float) → battery_is_low o ≡ battery_fault o
unfolding battery_is_low battery_is_critical battery_fault
battery_is_low-fault o = ground arith

stop-append :
    (ds es : List Decision) (bot : String)
    → stop_requested_for (ds ++ es) bot ≡ (stop_requested_for ds bot || stop_requested_for es bot)
unfolding stop_requested_for
stop-append ds es bot = any-append (λ d. _) ds es

module _ (b : BotState) (bot : String) where
  stop-battery :
      stop_requested_for (battery_rule b) bot ≡ (b.bot == bot && battery_is_low b.battery_pct)
  unfolding stop_requested_for battery_rule
  stop-battery = ground arith

  stop-blocked : (t : Float) → stop_requested_for (blocked_rule t b) bot ≡ false
  unfolding stop_requested_for blocked_rule
  stop-blocked t = ground arith

  stop-pose :
      (t : Float) (m a : Option Float)
      → stop_requested_for (pose_rule t m a b) bot
        ≡ (b.bot == bot && pose_is_stale t m a b b.pose_age)
  unfolding stop_requested_for pose_rule
  stop-pose t m a = ground arith

  stop-operator :
      stop_requested_for (operator_rule b) bot ≡ (b.bot == bot && b.operator_stop_requested)
  unfolding stop_requested_for operator_rule
  stop-operator = ground arith

  stop-scan :
      (t : Float)
      → stop_requested_for (scan_rule t b) bot
        ≡ (b.bot == bot && scan_is_stale t b.odom_seen b.scan_age)
  unfolding stop_requested_for scan_rule
  stop-scan t = ground arith

  stop-terrain :
      stop_requested_for (terrain_rule b) bot
      ≡ (b.bot == bot && terrain_is_bad b.odom_seen b.terrain_verdict)
  unfolding stop_requested_for terrain_rule terrain_is_bad
  stop-terrain = ground arith

stop-near :
    (hypot : Float → Float → Float) (t : Float) (a b : BotState) (bot : String)
    → stop_requested_for (proximity_rule hypot t a b) bot
      ≡ (is_some (near hypot t a b) && (a.bot == bot || b.bot == bot))
unfolding stop_requested_for proximity_rule
stop-near hypot t a b bot = ground arith

-- `evaluate` stops a robot exactly if it is one of the two and they are too near, or it has a fault
-- of its own; a blocked robot alone is not stopped. This holds for every input, NaN and missing
-- readings included.
pub stop_requested-evaluate :
    (hypot : Float → Float → Float) (t : Thresholds) (a b : BotState) (bot : String)
    → stop_requested_for (evaluate hypot t a b) bot ≡ (
        (too_near hypot t.distance_threshold a b && (a.bot == bot || b.bot == bot))
        || ((a.bot == bot && own_fault t a) || (b.bot == bot && own_fault t b)))
unfolding evaluate
stop_requested-evaluate hypot t a b bot =
    simp
      (
        stop-append, stop-near, stop-battery, stop-blocked, stop-pose, stop-operator, stop-scan,
        stop-terrain, battery_is_low-fault, pose_is_stale-fault, scan_is_stale-fault,
        terrain_is_bad-fault, near-too_near,
      )
      (unfold own_fault in ground arith)

own_fault_more :
    (t : Thresholds) (b : BotState)
    → own_fault t b ≡ true
    → own_fault (record t { pose_gate_motion_epsilon = none; pose_gate_angular_epsilon = none }) b
      ≡ true
unfolding own_fault pose_fault parked scan_fault
own_fault_more t b h = ground arith

-- Without its epsilons the displacement gate is open: whatever is stopped under some epsilons is
-- stopped without them.
pub unset_gate_stops_more :
    (hypot : Float → Float → Float) (t : Thresholds) (a b : BotState) (bot : String)
    → stop_requested_for (evaluate hypot t a b) bot ≡ true
    → stop_requested_for
        (evaluate hypot
          (record t { pose_gate_motion_epsilon = none; pose_gate_angular_epsilon = none })
          a
          b)
        bot
      ≡ true
unset_gate_stops_more hypot t a b bot h = rw stop_requested-evaluate (
    let h' = rw stop_requested-evaluate at h in
    ground (arith, own_fault_more t a, own_fault_more t b))
