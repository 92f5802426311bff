-- ===== src/Gate/Policy/Dispatch.antt =====
-- When a dispatch or a charging request is accepted, and what it changes.
use miniature_warehouse_robo.Base.{
  ◌≡◌, refl, String, Bool, true, false, not, Option, none, some, ◌==◌, ◌&&◌, ◌||◌, arith, is_some,
  if◌then◌else◌, Bool-cases, inl, inr,
}
use miniature_warehouse_robo.Base.Dict
use miniature_warehouse_robo.Base.Dict.{Dict, has, get-put}
use miniature_warehouse_robo.Base.Float.{Float, flt, fsub}
use miniature_warehouse_robo.Safety.Limits.{battery_allows_new_task, battery_low_pct}
use miniature_warehouse_robo.Safety.Limits.Bounds.{critical_takes_no_task}
use miniature_warehouse_robo.Gate.Freshness.{FreshnessThresholds}
use miniature_warehouse_robo.Gate.Checks.{
  Reason, rate_limit_s, charging_not_needed_above, is_known_location, check_location_known,
  check_same_location, check_battery, RobotSnapshot, check_robot_state, check_emergency,
  check_rate_limit, check_duplicate_destination, taken_by_other, gap_is_short,
}
use miniature_warehouse_robo.Gate.Policy.{
  PolicyGate, FleetState, DispatchResult, accepted, rejected, timestamp_is_corrupt, snapshot_ts,
  ◌<|>◌, location_stage, robot_stage, destination_stage, validate_dispatch_inner, register_unless,
  validate_and_register_dispatch, validate_charging, validate_and_register_charging, battery_of,
}

abbrev pub is_accepted : DispatchResult → Bool
is_accepted (accepted task_id) = true
is_accepted (rejected reason) = false

abbrev passes : Option Reason → Bool
passes none = true
passes (some r) = false

abbrev known : Option String → Bool
known none = false
known (some name) = is_known_location name

abbrev known_if_given : Option String → Bool
known_if_given none = true
known_if_given (some name) = is_known_location name

abbrev differ : Option String → Option String → Bool
differ none dropoff = true
differ (some pickup) none = true
differ (some pickup) (some dropoff) = not (pickup == dropoff)

-- The places of a request: anything but a wait needs a known dropoff, a known pickup if one is given,
-- and two different places; a wait needs a robot.
pub places_fit : Option String → Option String → Option String → String → Bool
places_fit robot pickup dropoff action =
    if action == "wait"
    then is_some robot
    else known_if_given pickup && (known dropoff && differ pickup dropoff)

abbrev fresh : Option Float → Float → FreshnessThresholds → Bool
fresh none now windows = true
fresh (some ts) now windows =
    not (flt windows.unavailable_after_s (fsub now ts))
    && not (flt windows.stale_after_s (fsub now ts))

abbrev battery_fits : Option Float → Bool
battery_fits none = true
battery_fits (some battery) = flt battery_low_pct battery

-- A robot that can be commanded: known, its snapshot readable and fresh, no emergency.
unfoldable pub robot_is_available :
    (String → Option Float) → PolicyGate → FleetState → String → Float → Bool
robot_is_available parse_iso g state robot now =
    not (timestamp_is_corrupt parse_iso state)
    && (is_some (Dict.get state.robots robot)
        && (fresh (snapshot_ts parse_iso state) now g.freshness && not (has g.emergency robot)))

-- A robot that can take a task: besides, its battery is above the low limit, if it is known, and its
-- last command is long enough ago.
abbrev pub robot_is_free :
    (String → Option Float) → PolicyGate → FleetState → Option String → Float → Bool
robot_is_free parse_iso g state none now = true
robot_is_free parse_iso g state (some robot) now =
    robot_is_available parse_iso g state robot now
    && (battery_fits (battery_of (Dict.get state.robots robot))
        && not (gap_is_short (Dict.get g.last_cmd robot) now rate_limit_s))

abbrev pub destination_is_free : PolicyGate → Option String → Option String → String → Bool
destination_is_free g robot none action = true
destination_is_free g robot (some dropoff) action =
    not (action == "deliver") || not (taken_by_other g.dropoffs dropoff robot)

passes-or : (a b : Option Reason) → passes (a <|> b) ≡ (passes a && passes b)
passes-or a b = ground arith

passes-location :
    (robot pickup dropoff : Option String) (action : String)
    → passes (location_stage robot pickup dropoff action) ≡ places_fit robot pickup dropoff action
unfolding location_stage places_fit check_location_known check_same_location
passes-location robot pickup dropoff action = ground arith

passes-battery : (o : Option Float) → passes (check_battery o) ≡ battery_fits o
unfolding check_battery battery_allows_new_task
passes-battery none = refl
passes-battery (some pct) = ground (arith, critical_takes_no_task pct)

passes-state :
    (o : Option RobotSnapshot) (now : Float) (ts : Option Float) (w : FreshnessThresholds)
    → passes (check_robot_state o now ts w) ≡ (is_some o && fresh ts now w)
unfolding check_robot_state
passes-state o now ts w = ground arith

passes-robot :
    (parse_iso : String → Option Float) (g : PolicyGate) (state : FleetState)
    (robot : Option String) (now : Float)
    → passes (robot_stage parse_iso g state robot now) ≡ robot_is_free parse_iso g state robot now
unfolding robot_stage robot_is_available check_emergency check_rate_limit
passes-robot parse_iso g state none now = refl
passes-robot parse_iso g state (some robot) now =
    elim (Bool-cases (timestamp_is_corrupt parse_iso state)) [
      | inl corrupt ↦ ground (arith, corrupt)
      | inr readable ↦
          rw (readable, passes-or, passes-state, passes-or, passes-battery, passes-or)
            (ground arith)
    ]

passes-destination :
    (g : PolicyGate) (robot dropoff : Option String) (action : String)
    → passes (destination_stage g robot dropoff action) ≡ destination_is_free g robot dropoff action
unfolding destination_stage check_duplicate_destination
passes-destination g robot none action = ground arith
passes-destination g robot (some dropoff) action = ground arith

accepts-register :
    (o : Option Reason) (g : PolicyGate) (robot dropoff : Option String) (now : Float)
    → is_accepted (register_unless o g robot dropoff now).1 ≡ passes o
accepts-register none g robot dropoff now = refl
accepts-register (some r) g robot dropoff now = refl

-- A dispatch is accepted exactly if its places fit, its robot (if it names one) is free, and, for a
-- delivery, no other robot is on its way to the destination.
pub accepts-dispatch :
    (parse_iso : String → Option Float) (g : PolicyGate) (state : FleetState)
    (robot pickup dropoff : Option String) (action : String) (now : Float)
    → is_accepted
        (validate_and_register_dispatch parse_iso g state robot pickup dropoff action now).1
      ≡ (places_fit robot pickup dropoff action
          && (robot_is_free parse_iso g state robot now
              && destination_is_free g robot dropoff action))
unfolding validate_and_register_dispatch validate_dispatch_inner
accepts-dispatch parse_iso g state robot pickup dropoff action now = rw (
  accepts-register _ g robot dropoff now,
  passes-or,
  passes-location,
  passes-or,
  passes-robot,
  passes-destination,
)

-- A charging request is accepted exactly if the robot is available and its battery is unknown or at
-- most 80 percent: a low or critical battery does not refuse it, nor does the rate limit.
pub accepts-charging :
    (parse_iso : String → Option Float) (g : PolicyGate) (state : FleetState) (robot : String)
    (now : Float)
    → is_accepted (validate_and_register_charging parse_iso g state robot now).1 ≡ (
        robot_is_available parse_iso g state robot now
        && not (elim (battery_of (Dict.get state.robots robot)) [
          | none ↦ false
          | some battery ↦ flt charging_not_needed_above battery
        ]))
unfolding validate_and_register_charging validate_charging robot_is_available check_emergency
accepts-charging parse_iso g state robot now =
    elim (Bool-cases (timestamp_is_corrupt parse_iso state)) [
      | inl corrupt ↦ ground (arith, corrupt)
      | inr readable ↦
          rw
            (
              accepts-register _ g (some robot) (some "charging_station") now,
              readable,
              passes-or,
              passes-state,
              passes-or,
            )
            (ground arith)
    ]
