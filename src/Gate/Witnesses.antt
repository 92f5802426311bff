-- ===== src/Gate/Witnesses.antt =====
-- The theorems of the governance layer at concrete inputs.
use miniature_warehouse_robo.Base.{
  ◌≡◌, ◌≤◌, refl, String, true, Option, none, some, List, [], ◌∷◌, ◌==◌, ◌&&◌, all, is_some,
  if◌then◌else◌,
}
use miniature_warehouse_robo.Base.Dict
use miniature_warehouse_robo.Base.Dict.{has, add, discard}
use miniature_warehouse_robo.Base.Float.{Float, micro, units, is_finite, flt, fle, fsub}
use miniature_warehouse_robo.Base.Int.{◌-ℤ◌}
use miniature_warehouse_robo.Base.Json.{Fields, num, obj, end, field, member}
use miniature_warehouse_robo.Safety.Limits.{battery_is_critical, battery_allows_new_task}
use miniature_warehouse_robo.Gate.Freshness.{
  FreshnessThresholds, freshness_thresholds, freshness_from_config, validate_clear_after,
  clear_after_from_config,
}
use miniature_warehouse_robo.Gate.Freshness.Bounds.{IsTight, freshness_from_config-IsTight}
use miniature_warehouse_robo.Gate.Checks.{
  is_known_location, check_location_known, check_same_location, check_battery, check_robot_state,
  check_emergency, check_rate_limit, taken_by_other, check_duplicate_destination,
}
use miniature_warehouse_robo.Gate.Policy.{
  PolicyGate, FleetState, accepted, new_gate, snapshot_ts, timestamp_is_corrupt, location_stage,
  robot_stage, destination_stage, validate_dispatch_inner, register_task_inner,
  validate_and_register_dispatch, owner_of, resolve_and_clear_by_task_id,
}
use miniature_warehouse_robo.Gate.Policy.Ops.{Op, dispatch, cancel_id, perform_all}
use miniature_warehouse_robo.Gate.Policy.Dispatch.{
  is_accepted, places_fit, robot_is_free, destination_is_free, accepts-dispatch,
}
use miniature_warehouse_robo.Gate.Policy.Tasks.{Cancels, cancel_by_id, task_ids_unique}
use miniature_warehouse_robo.Gate.Policy.Destinations.{only_delivers, deliveries_exclusive}
use miniature_warehouse_robo.Gate.Mirror.{new_mirror}
use miniature_warehouse_robo.Gate.Mirror.Holds.{
  Event, signal, swept, receive_all, held_since, held-eq-held_since,
}

abbrev noon : String
noon = "2026-07-01T12:00:00"

abbrev bot2 : String
bot2 = "bot2"

abbrev iso : String → Option Float
iso s = if s == noon then some (units 100) else none

abbrev windows : FreshnessThresholds
windows = record { stale_after_s = micro 500_000; unavailable_after_s = units 2 }

abbrev fleet : FleetState
fleet = record {
  timestamp = some noon;
  robots =
      ("bot1", record { battery = some (units 50) })
      ∷ ("bot2", record { battery = some (units 60) })
      ∷ [];
}

abbrev now : Float
now = micro 100_200_000

-- A delivery of bot2, its duplicate for bot1, and a cancellation of a task that is not there.
abbrev calls : List Op
calls =
    dispatch fleet (some "bot2") (some "shelf_1") (some "berth_A") "deliver" now
    ∷ dispatch fleet (some "bot1") (some "shelf_2") (some "berth_A") "deliver" now
    ∷ cancel_id 7
    ∷ []

abbrev gate : PolicyGate
gate = perform_all iso (new_gate windows []) calls

abbrev events : List Event
events = signal "bot1" (units 10) ∷ swept (micro 10_500_000) ∷ swept (units 12) ∷ []

no_emergency : (new_gate windows []).emergency ≡ []
unfolding new_gate
no_emergency = refl

held-eq-held_since_example :
    has (receive_all iso (new_mirror (units 1), new_gate windows []) events).1.emergency "bot1"
    ≡ is_some (held_since (units 1) "bot1" none events)
held-eq-held_since_example =
    held-eq-held_since iso (units 1) (new_gate windows []) events "bot1" no_emergency

bot1_held : has (new_gate windows ("bot1" ∷ [])).emergency "bot1" ≡ true
unfolding new_gate has
bot1_held = refl

accepts-dispatch_example :
    is_accepted
      (validate_and_register_dispatch iso gate fleet
        (some "bot1")
        (some "shelf_2")
        (some "shipping_station")
        "deliver"
        now).1
    ≡ (places_fit (some "bot1") (some "shelf_2") (some "shipping_station") "deliver"
        && (robot_is_free iso gate fleet (some "bot1") now
            && destination_is_free gate (some "bot1") (some "shipping_station") "deliver"))
accepts-dispatch_example =
    accepts-dispatch iso gate fleet (some "bot1") (some "shelf_2") (some "shipping_station")
      "deliver" now

second_id :
    (validate_and_register_dispatch iso gate fleet
      (some "bot1")
      (some "shelf_2")
      (some "shipping_station")
      "deliver"
      now).1
    ≡ accepted 2
unfolding validate_and_register_dispatch validate_dispatch_inner location_stage robot_stage
    destination_stage check_location_known check_same_location is_known_location has
    timestamp_is_corrupt snapshot_ts check_robot_state check_battery check_emergency
    check_rate_limit check_duplicate_destination taken_by_other register_task_inner
    battery_is_critical battery_allows_new_task flt fle fsub Dict.get Dict.put new_gate
    resolve_and_clear_by_task_id owner_of ◌-ℤ◌
second_id = refl

cancel_by_id_example :
    let g =
      (validate_and_register_dispatch iso gate fleet
        (some "bot1")
        (some "shelf_2")
        (some "shipping_station")
        "deliver"
        now).0 in
    Cancels g "bot1" (resolve_and_clear_by_task_id g 2)
cancel_by_id_example =
    cancel_by_id iso windows [] calls fleet "bot1" (some "shelf_2") (some "shipping_station")
      "deliver" now 2 second_id

bot2_active : Dict.get gate.active_tasks "bot2" ≡ some 1
unfolding validate_and_register_dispatch validate_dispatch_inner location_stage robot_stage
    destination_stage check_location_known check_same_location is_known_location has
    timestamp_is_corrupt snapshot_ts check_robot_state check_battery check_emergency
    check_rate_limit check_duplicate_destination taken_by_other register_task_inner
    battery_is_critical battery_allows_new_task flt fle fsub Dict.get Dict.put new_gate
    resolve_and_clear_by_task_id owner_of ◌-ℤ◌
bot2_active = refl

task_ids_unique_example : (bot2 ≡ bot2) × (1 ≤ gate.task_seq)
task_ids_unique_example =
    task_ids_unique iso windows [] calls "bot2" "bot2" 1 bot2_active bot2_active

only_deliveries : all only_delivers calls ≡ true
unfolding all
only_deliveries = refl

bot2_on_its_way : Dict.get gate.dropoffs "bot2" ≡ some "berth_A"
unfolding validate_and_register_dispatch validate_dispatch_inner location_stage robot_stage
    destination_stage check_location_known check_same_location is_known_location has
    timestamp_is_corrupt snapshot_ts check_robot_state check_battery check_emergency
    check_rate_limit check_duplicate_destination taken_by_other register_task_inner
    battery_is_critical battery_allows_new_task flt fle fsub Dict.get Dict.put new_gate
    resolve_and_clear_by_task_id owner_of ◌-ℤ◌
bot2_on_its_way = refl

deliveries_exclusive_example : bot2 ≡ bot2
deliveries_exclusive_example =
    deliveries_exclusive iso windows [] calls "bot2" "bot2" "berth_A" only_deliveries
      bot2_on_its_way bot2_on_its_way

abbrev config : Fields
config =
    field "policy_gate"
      (obj (
        field "stale_after_s" (num (micro 400_000))
          (field "emergency_clear_after_s" (num (units 3)) end)))
      end

abbrev tight : FreshnessThresholds
tight = record { stale_after_s = micro 400_000; unavailable_after_s = units 2 }

config_accepted : freshness_from_config (some config) ≡ some tight
unfolding freshness_from_config freshness_thresholds member is_finite flt fle
config_accepted = refl

freshness_from_config-IsTight_example : IsTight tight
freshness_from_config-IsTight_example = freshness_from_config-IsTight (some config) config_accepted

hold_accepted : clear_after_from_config (some config) ≡ some (units 3)
unfolding clear_after_from_config validate_clear_after member is_finite flt fle
hold_accepted = refl
