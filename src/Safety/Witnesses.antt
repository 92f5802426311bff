-- ===== src/Safety/Witnesses.antt =====
-- The theorems of the safety layer at concrete inputs; those of the monitor and of the node are in
-- the child module.
mod Node
use miniature_warehouse_robo.Base.{
  ℕ, ◌≡◌, ◌≤◌, ◌+◌, refl, String, Bool, true, false, not, Option, none, some, List, [], ◌∷◌, ◌++◌,
  ◌==◌, ◌&&◌, ◌||◌, ◌⊎◌, arith, all, any, is_some, length, All, if◌then◌else◌,
}
use miniature_warehouse_robo.Base.Int.{ℤ, pos, negsuc, ◌-ℤ◌, ◌+ℤ◌}
use miniature_warehouse_robo.Base.Dict
use miniature_warehouse_robo.Base.Dict.{Dict, has, add}
use miniature_warehouse_robo.Base.Float.{
  Float, nan, inf, fin, micro, units, is_finite, flt, fle, fadd, fsub, fneg, fabs, fzero, fle-fadd,
  is_nan, fabs-nonneg, fle-fadd_nonneg, is_finite-fsub,
}
use miniature_warehouse_robo.Base.Json.{Json, str, obj, end, field, member}
use miniature_warehouse_robo.Safety.Limits.{
  clamp_velocity, normalize_battery_percent, validate_battery_scale, battery_is_critical,
  battery_allows_new_task, battery_scale_percent, battery_scale_fraction,
}
use miniature_warehouse_robo.Safety.Limits.Bounds.{
  clamp_velocity_bounds, normalize-total, fraction_as_percent_critical,
}
use miniature_warehouse_robo.Safety.Guard.{
  BotState, Thresholds, Decision, estop, scan_stale, near_collision, near, distance, evaluate,
  stop_requested_for, battery_is_low, gate_exceeded, pose_gate_open, scan_is_stale, age_is_unknown,
}
use miniature_warehouse_robo.Safety.Guard.Stops.{
  own_fault, scan_fault, too_near, stop_requested-evaluate, unset_gate_stops_more,
}
use miniature_warehouse_robo.Safety.Motion.{
  MathLib, BlockTracker, new_block_tracker, moved, update, PoseGateTracker, new_pose_gate, on_odom,
  snapshot, sample_is_finite, wrap_angle, accumulate, get_or,
}
use miniature_warehouse_robo.Safety.Motion.Growth.{MathLaws, travel, turn}
use miniature_warehouse_robo.Safety.Motion.Travel
use miniature_warehouse_robo.Safety.Motion.Travel.{
  Event, odom, feed_all, is_good_odom, with_snapshot, pose_gate_latches,
}
use miniature_warehouse_robo.Safety.Motion.Dropout.{dropout_closes_gate}
use miniature_warehouse_robo.Safety.Motion.Blocked.{update_all, stays_near, blocked_duration_exact}
use miniature_warehouse_robo.Safety.Latches.{
  EdgeLatch, new_latch, new_operator_latch, OperatorStopLatch, engage, holds, keys_of, Key,
  parse_operator_stop_action,
}
use miniature_warehouse_robo.Safety.Latches.Edges.{
  reports, rising_edges, signal, reports-eq-rising_edges,
}
use miniature_warehouse_robo.Safety.Latches.Operator
use miniature_warehouse_robo.Safety.Latches.Operator.{last_action, state_after, engaged-feed_all}

-- The sum of the two distances, and an angle that is always zero: coarse, and within the laws.
abbrev pub math : MathLib
math = record {
  hypot = λ x y. fadd (fabs x) (fabs y);
  atan2 = λ y x. y;
  sin = λ x. x;
  cos = λ x. x;
}

math_laws : MathLaws math
math_laws = record {
  hypot_nonneg = λ x y p q. fle-fadd_nonneg (fabs x) (fabs y) (fabs-nonneg x p) (fabs-nonneg y q);
  sin_finite = λ x p. p;
  cos_finite = λ x p. p;
  atan2_finite = λ y x p q. p;
}

fraction_is_valid : validate_battery_scale battery_scale_fraction ≡ some battery_scale_fraction
unfolding validate_battery_scale
fraction_is_valid = refl

abbrev pub limits : Thresholds
limits = record {
  distance_threshold = micro 150_000;
  blocked_timeout = units 10;
  pose_freshness_timeout = units 1;
  scan_freshness_timeout = units 1;
  pose_gate_motion_epsilon = some (micro 50_000);
  pose_gate_angular_epsilon = some (micro 100_000);
}

-- A robot at rest whose laser has been silent for two seconds.
abbrev silent : String → Float → BotState
silent name x = record {
  bot = name;
  x = some x;
  y = some fzero;
  battery_pct = some (units 50);
  blocked_duration = fzero;
  pose_age = some fzero;
  odom_disp_since_pose = some fzero;
  odom_dyaw_since_pose = some fzero;
  operator_stop_requested = false;
  scan_age = some (units 2);
  odom_seen = true;
  terrain_source = none;
  terrain_verdict = none;
  terrain_health_epoch = none;
}

stop_requested-evaluate_example :
    stop_requested_for
      (evaluate math.hypot limits (silent "bot1" fzero) (silent "bot2" (units 1)))
      "bot1"
    ≡ ((too_near math.hypot limits.distance_threshold
            (silent "bot1" fzero)
            (silent "bot2" (units 1))
          && ("bot1" == "bot1" || "bot2" == "bot1"))
        || (("bot1" == "bot1" && own_fault limits (silent "bot1" fzero))
            || ("bot2" == "bot1" && own_fault limits (silent "bot2" (units 1)))))
stop_requested-evaluate_example =
    stop_requested-evaluate math.hypot limits (silent "bot1" fzero) (silent "bot2" (units 1)) "bot1"

abbrev drive : List Event
drive = odom "bot1" fzero fzero fzero (units 1) ∷ odom "bot1" (units 1) fzero fzero (units 2) ∷ []

abbrev return_drive : List Event
return_drive = odom "bot1" fzero fzero fzero (units 3) ∷ []

gone_far :
    gate_exceeded
      (micro 50_000)
      (micro 100_000)
      (travel (feed_all math new_pose_gate drive) "bot1")
      (turn (feed_all math new_pose_gate drive) "bot1")
    ≡ true
unfolding gate_exceeded new_pose_gate on_odom accumulate wrap_angle distance Dict.get Dict.put
    is_finite flt fadd fsub fabs fneg ◌+ℤ◌ ◌-ℤ◌
gone_far = refl

return_is_good : all is_good_odom return_drive ≡ true
unfolding all is_finite
return_is_good = refl

pose_gate_latches_example :
    pose_gate_open
      (with_snapshot
        (silent "bot1" fzero)
        (feed_all math (feed_all math new_pose_gate drive) return_drive)
        "bot1"
        (units 4)
        (units 1))
      (some (micro 50_000))
      (some (micro 100_000))
    ≡ true
pose_gate_latches_example =
    pose_gate_latches math math_laws drive return_drive (silent "bot1" fzero) "bot1" (units 4)
      (units 1) (micro 50_000) (micro 100_000) gone_far return_is_good

bad_sample : sample_is_finite nan fzero fzero (units 3) ≡ false
unfolding is_finite
bad_sample = refl

good_sample : sample_is_finite (units 1) fzero fzero (units 4) ≡ true
unfolding is_finite
good_sample = refl

dropout_closes_gate_example :
    let g' =
      on_odom math
        (on_odom math (feed_all math new_pose_gate drive) "bot1" nan fzero fzero (units 3))
        "bot1"
        (units 1)
        fzero
        fzero
        (units 4) in
    (snapshot g' "bot1" (units 4) (units 1) ≡ (some fzero, some fzero))
    × (pose_gate_open
          (with_snapshot (silent "bot1" fzero) g' "bot1" (units 4) (units 1))
          (some (micro 50_000))
          (some (micro 100_000))
        ≡ false)
dropout_closes_gate_example =
    dropout_closes_gate math (feed_all math new_pose_gate drive) (silent "bot1" fzero) "bot1" nan
      fzero fzero (units 3) (units 1) fzero fzero (units 4) (units 1) (micro 50_000) (micro 100_000)
      bad_sample good_sample (unfold is_finite in refl) (unfold fle in refl)
      (unfold is_finite in refl) (unfold is_finite in refl) (unfold flt in refl)
      (unfold flt in refl)

abbrev jitter : List (String × Float × Float × Float)
jitter = ("bot1", micro 10_000, fzero, units 2) ∷ ("bot2", units 5, units 5, units 3) ∷ []

starts_clock :
    moved math new_block_tracker.epsilon (Dict.get new_block_tracker.last_xy "bot1") fzero fzero
    ≡ true
unfolding moved new_block_tracker Dict.get
starts_clock = refl

jitter_is_near : stays_near math new_block_tracker.epsilon "bot1" fzero fzero jitter ≡ true
unfolding new_block_tracker distance fle fadd fsub fabs flt fneg ◌+ℤ◌ ◌-ℤ◌
jitter_is_near = refl

stands_still : fle new_block_tracker.epsilon (distance math.hypot fzero fzero fzero fzero) ≡ false
unfolding new_block_tracker distance fle fadd fsub fabs flt fneg ◌+ℤ◌ ◌-ℤ◌
stands_still = refl

blocked_duration_exact_example :
    (update math
      (update_all math (update math new_block_tracker "bot1" fzero fzero (units 1)).0 jitter)
      "bot1"
      fzero
      fzero
      (units 4)).1
    ≡ fsub (units 4) (units 1)
blocked_duration_exact_example =
    blocked_duration_exact math new_block_tracker "bot1" fzero fzero (units 1) jitter fzero fzero
      (units 4) starts_clock jitter_is_near stands_still

abbrev pub engage_payload : String
engage_payload = "{\"action\": \"engage\"}"

abbrev pub loads : String → Option Json
loads raw = if raw == engage_payload then some (obj (field "action" (str "engage") end)) else none

abbrev silence : List Decision
silence = record { bot = "bot1"; action = estop; reason = scan_stale; detail = none } ∷ []

reports-eq-rising_edges_example :
    reports new_latch (silence ∷ silence ∷ [] ∷ silence ∷ []) ("bot1", scan_stale)
    ≡ rising_edges
        (holds new_latch.active ("bot1", scan_stale))
        (signal (silence ∷ silence ∷ [] ∷ silence ∷ []) ("bot1", scan_stale))
reports-eq-rising_edges_example =
    reports-eq-rising_edges new_latch (silence ∷ silence ∷ [] ∷ silence ∷ []) ("bot1", scan_stale)
