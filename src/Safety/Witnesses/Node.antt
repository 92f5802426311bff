-- ===== src/Safety/Witnesses/Node.antt =====
-- The theorems of the sensor-health monitor and of the Guardian node at concrete inputs.
use miniature_warehouse_robo.Base.{
  ◌≡◌, refl, String, Bool, true, false, none, some, List, [], ◌∷◌, arith, all, All,
}
use miniature_warehouse_robo.Base.Int.{◌-ℤ◌}
use miniature_warehouse_robo.Base.Dict
use miniature_warehouse_robo.Base.Dict.{Dict}
use miniature_warehouse_robo.Base.Float.{Float, nan, micro, units, is_finite, flt, fle, fsub, fzero}
use miniature_warehouse_robo.Base.Json.{member}
use miniature_warehouse_robo.Safety.Limits.{
  normalize_battery_percent, battery_is_critical, battery_scale_percent,
}
use miniature_warehouse_robo.Safety.Guard.{
  operator_stop_request, battery_is_low, stop_requested_for,
}
use miniature_warehouse_robo.Safety.Latches.{engage, parse_operator_stop_action}
use miniature_warehouse_robo.Safety.Latches.Operator.{last_action}
use miniature_warehouse_robo.Safety.Health.{
  SourceThresholds, source_thresholds, SourceObservation, SensorHealthMonitor, verdict, verdicts_of,
  observe, recorded, advance_run, stamp_advanced, verdict_of, run_is_frozen, same_verdicts, changed,
  evaluate, is_ok, run_of,
}
use miniature_warehouse_robo.Safety.Health.Verdicts.{
  IsValid, all_established, source_thresholds-IsValid, healthy-evaluate,
}
use miniature_warehouse_robo.Safety.Health.Epochs.{
  Op, message, tick, perform_all, same_epoch_same_verdicts,
}
use miniature_warehouse_robo.Safety.Health.Frozen.{newer, messages, repeats, frozen_is_not_ok}
use miniature_warehouse_robo.Safety.Guardian.{
  Env, Config, Guardian, new_guardian, decide, check_safety, handle_odom,
}
use miniature_warehouse_robo.Safety.Guardian.Publish.{twisted, flagged, twist_matches_feed}
use miniature_warehouse_robo.Safety.Guardian.Runs
use miniature_warehouse_robo.Safety.Guardian.Edges.{
  edges, publications, signals, event_count, events_at_rising_edges,
}
use miniature_warehouse_robo.Safety.Guardian.Runs.{
  Input, operator, battery, receive_all, payloads, stays_low, engage_stops_fleet,
  critical_battery_holds,
}
use miniature_warehouse_robo.Safety.Witnesses.{math, limits, loads, engage_payload}

abbrev cliff_limits : SourceThresholds
cliff_limits = record {
  stale_after_s = units 1;
  min_valid_fraction = micro 500_000;
  frozen_repeats = 3;
}

abbrev sample : Float → SourceObservation
sample t = record {
  stamp_s = t;
  received_monotonic_s = t;
  valid_fraction = micro 900_000;
  digest = some "abc";
}

abbrev monitor : SensorHealthMonitor
monitor = record {
  thresholds = ("cliff_scan", cliff_limits) ∷ [];
  last = ("cliff_scan", sample (units 1)) ∷ [];
  runs = ("cliff_scan", (some "abc", 1)) ∷ [];
  epoch = 0;
  previous = none;
}

cliff_accepted : source_thresholds (units 1) (micro 500_000) 3 ≡ some cliff_limits
unfolding source_thresholds is_finite fle flt
cliff_accepted = refl

monitor-IsValid : All (λ e. IsValid e.1) monitor.thresholds
monitor-IsValid = (source_thresholds-IsValid (units 1) (micro 500_000) 3 cliff_accepted, tt)

healthy-evaluate_example :
    (evaluate monitor (micro 1_500_000)).1.healthy
    ≡ all_established monitor (micro 1_500_000) monitor.thresholds
healthy-evaluate_example = healthy-evaluate monitor (micro 1_500_000) monitor-IsValid

abbrev later_ops : List Op
later_ops = message "cliff_scan" (sample (units 2)) ∷ tick (units 2) ∷ []

still_epoch :
    (evaluate (perform_all (evaluate monitor (units 1)).0 later_ops) (units 2)).1.health_epoch
    ≡ (evaluate monitor (units 1)).1.health_epoch
unfolding evaluate changed same_verdicts verdicts_of verdict verdict_of run_is_frozen observe
    recorded advance_run stamp_advanced Dict.get Dict.put is_finite flt fle fsub ◌-ℤ◌
still_epoch = refl

abbrev repetitions : List SourceObservation
repetitions = sample (units 2) ∷ sample (units 3) ∷ []

abbrev after_repetitions : List Op
after_repetitions = message "cliff_scan" (sample nan) ∷ tick (units 3) ∷ []

monitor_declares : Dict.get monitor.thresholds "cliff_scan" ≡ some cliff_limits
unfolding Dict.get
monitor_declares = refl

monitor_saw : Dict.get monitor.last "cliff_scan" ≡ some (sample (units 1))
unfolding Dict.get
monitor_saw = refl

monitor_runs : run_of monitor.runs "cliff_scan" ≡ (some "abc", 1)
unfolding Dict.get
monitor_runs = refl

repetitions_advance : newer "abc" (units 1) repetitions ≡ true
unfolding is_finite flt
repetitions_advance = refl

still_repeats : all (repeats "cliff_scan" "abc") after_repetitions ≡ true
unfolding all
still_repeats = refl

frozen_is_not_ok_example :
    is_ok (
      verdict
        (perform_all (perform_all monitor (messages "cliff_scan" repetitions)) after_repetitions)
        (units 3)
        "cliff_scan"
        cliff_limits)
    ≡ false
frozen_is_not_ok_example =
    frozen_is_not_ok monitor "cliff_scan" "abc" 1 (sample (units 1)) repetitions after_repetitions
      cliff_limits (units 3) monitor_declares monitor_saw monitor_runs repetitions_advance
      (omega arith) still_repeats

abbrev env : Env
env = record {
  math = math;
  loads = loads;
  parse_coverage = λ payload. none;
  wall = λ n. fzero;
  event_id = λ t n. "evt";
}

abbrev cfg : Config
cfg = record {
  thresholds = limits;
  odom_freshness_timeout = units 1;
  battery_scale = battery_scale_percent;
}

abbrev nav2_is_ready : String → Bool
nav2_is_ready bot = true

abbrev start : Guardian
start = handle_odom env (new_guardian []) "bot1" fzero fzero fzero (units 1)

twist_matches_feed_example :
    let outputs = (check_safety env cfg nav2_is_ready start (units 2)).1 in
    let decisions = (decide env cfg start (units 2)).1 in
    (twisted outputs "bot1" ≡ stop_requested_for decisions "bot1")
    × (twisted outputs "bot2" ≡ stop_requested_for decisions "bot2")
    × (flagged outputs "bot1" ≡ stop_requested_for decisions "bot1")
    × (flagged outputs "bot2" ≡ stop_requested_for decisions "bot2")
twist_matches_feed_example = twist_matches_feed env cfg nav2_is_ready start (units 2)

abbrev engaged_inputs : List Input
engaged_inputs = operator engage_payload ∷ battery "bot1" nan ∷ operator "garbage" ∷ []

engaged_last : last_action env.loads (payloads engaged_inputs) ≡ some engage
unfolding last_action parse_operator_stop_action member
engaged_last = refl

-- Two ticks under the operator's stop, with a payload between them that says nothing.
abbrev stopped_run : List Input
stopped_run =
    operator engage_payload
    ∷ Runs.tick nav2_is_ready (units 2)
    ∷ operator "garbage"
    ∷ Runs.tick nav2_is_ready (units 3)
    ∷ []

events_at_rising_edges_example :
    let g = new_guardian [] in
    (publications env cfg g stopped_run ("bot1", operator_stop_request)
      ≡ edges false (signals env cfg g stopped_run ("bot1", operator_stop_request)))
    × ((receive_all env cfg g stopped_run).seq ≡ event_count env cfg g stopped_run)
events_at_rising_edges_example =
    events_at_rising_edges env cfg [] stopped_run ("bot1", operator_stop_request)

engage_stops_fleet_example :
    (twisted
        (check_safety env cfg nav2_is_ready (receive_all env cfg start engaged_inputs) (units 3)).1
        "bot1"
      ≡ true)
    × (twisted
          (check_safety env cfg nav2_is_ready
            (receive_all env cfg start engaged_inputs)
            (units 3)).1
          "bot2"
        ≡ true)
engage_stops_fleet_example =
    engage_stops_fleet env cfg nav2_is_ready start engaged_inputs (units 3) engaged_last

abbrev drained : Guardian
drained = record start { battery = ("bot1", units 5) ∷ [] }

drained_is_low : battery_is_low (Dict.get drained.battery "bot1") ≡ true
unfolding battery_is_low battery_is_critical Dict.get is_finite fle
drained_is_low = refl

abbrev noisy_inputs : List Input
noisy_inputs = battery "bot1" nan ∷ battery "bot2" (units 90) ∷ []

noisy_stays_low : all (stays_low cfg "bot1") noisy_inputs ≡ true
unfolding all normalize_battery_percent is_finite
noisy_stays_low = refl

critical_battery_holds_example :
    twisted
      (check_safety env cfg nav2_is_ready (receive_all env cfg drained noisy_inputs) (units 3)).1
      "bot1"
    ≡ true
critical_battery_holds_example =
    critical_battery_holds env cfg nav2_is_ready drained noisy_inputs (units 3) drained_is_low
      noisy_stays_low

same_epoch_same_verdicts_example :
    (evaluate (perform_all (evaluate monitor (units 1)).0 later_ops) (units 2)).1.verdicts
    ≡ (evaluate monitor (units 1)).1.verdicts
same_epoch_same_verdicts_example =
    same_epoch_same_verdicts monitor (units 1) (units 2) later_ops still_epoch
