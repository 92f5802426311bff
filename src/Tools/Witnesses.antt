-- ===== src/Tools/Witnesses.antt =====
-- The theorems on the tools at concrete inputs, and tests of the code.
use miniature_warehouse_robo.Base.{
  ◌≡◌, refl, String, true, false, Option, none, some, List, [], ◌∷◌, ◌==◌, is_some, arith,
  if◌then◌else◌,
}
use miniature_warehouse_robo.Base.Dict
use miniature_warehouse_robo.Base.Dict.{has}
use miniature_warehouse_robo.Base.Int.{◌-ℤ◌}
use miniature_warehouse_robo.Base.Float.{micro, units, is_finite, flt, fle, fsub}
use miniature_warehouse_robo.Safety.Limits.{battery_is_critical, battery_allows_new_task}
use miniature_warehouse_robo.Gate.Checks.{
  is_known_location, check_location_known, check_same_location, check_battery, check_robot_state,
  check_emergency, check_rate_limit, taken_by_other, check_duplicate_destination,
}
use miniature_warehouse_robo.Gate.Policy.{
  new_gate, snapshot_ts, timestamp_is_corrupt, location_stage, robot_stage, destination_stage,
  validate_dispatch_inner, register_task_inner, validate_and_register_dispatch,
}
use miniature_warehouse_robo.Tools.Replay.{Stores, is_stale, evict, check_and_add, check}
use miniature_warehouse_robo.Tools.Replay.Once.{
  Op, published, called, perform_all, orderly_all, replay_refused,
}
use miniature_warehouse_robo.Tools.Calls.{
  DispatchArgs, Call, dispatch_task, WarehouseTools, Reading, body, invoke,
}
use miniature_warehouse_robo.Tools.Forward.{
  navigate, plan_nav2_request, is_ok, maybe_forward, dispatch,
}
use miniature_warehouse_robo.Tools.Forward.Kept.{IsKept, Remembers}
use miniature_warehouse_robo.Tools.Forward.Errors.{LogsFailure, failure_is_harmless}
use miniature_warehouse_robo.Tools.Forward.Holds.{moves, held_robot_not_driven}

abbrev fresh_stores : Stores
fresh_stores = record { gen = some 5; consumed = [] }

-- After the first call the window moves on, and forgets the key.
abbrev later : List Op
later = published 14 ∷ called 14 (some "k2") ∷ called 14 none ∷ []

key_is_forgotten :
    (perform_all (check fresh_stores 5 (some "k1")).0 later).consumed ≡ ("k2", 14) ∷ []
unfolding check is_stale check_and_add evict Dict.get Dict.put
key_is_forgotten = refl

first_is_accepted : (check fresh_stores 5 (some "k1")).1 ≡ none
unfolding check is_stale check_and_add Dict.get
first_is_accepted = refl

later_is_orderly : orderly_all (check fresh_stores 5 (some "k1")).0 later ≡ true
unfolding check is_stale check_and_add evict Dict.get Dict.put
later_is_orderly = refl

replay_refused_example :
    let s' = perform_all (check fresh_stores 5 (some "k1")).0 later in
    (is_some (check s' 5 (some "k1")).1 ≡ true) × ((check s' 5 (some "k1")).0 ≡ s')
replay_refused_example =
    replay_refused fresh_stores "k1" 5 5 later first_is_accepted later_is_orderly (omega arith)

abbrev noon : String
noon = "2026-07-01T12:00:00"

abbrev reading : Reading
reading = record {
  parse_iso = λ s. if s == noon then some (units 100) else none;
  state = record {
    timestamp = some noon;
    robots = ("bot1", record { battery = some (units 50) }) ∷ [];
  };
  now = micro 100_200_000;
  has_starter = true;
}

abbrev tools : List String → WarehouseTools
tools held = record {
  stores = fresh_stores;
  gate = new_gate (record { stale_after_s = micro 500_000; unavailable_after_s = units 2 }) held;
  escalations = [];
  negotiation_seq = 0;
}

abbrev delivery : DispatchArgs
delivery = record {
  robot = some "bot1";
  pickup = none;
  dropoff = some "berth_A";
  priority = "normal";
  via = none;
  action = "deliver";
  duration = none;
}

abbrev bind : String → Option Call
bind name = if name == "dispatch_task" then some (dispatch_task delivery) else none

delivery_is_forwarded :
    (dispatch reading true (tools []) "dispatch_task" (some 5) (some "k1") bind).forwarded
    ≡ some (navigate "bot1" "berth_A" none)
unfolding dispatch invoke body maybe_forward is_ok plan_nav2_request check is_stale check_and_add
    validate_and_register_dispatch validate_dispatch_inner location_stage robot_stage
    destination_stage register_task_inner timestamp_is_corrupt snapshot_ts is_known_location
    check_location_known check_same_location check_battery check_robot_state check_emergency
    check_rate_limit taken_by_other check_duplicate_destination battery_is_critical
    battery_allows_new_task new_gate has Dict.get is_finite flt fle fsub ◌-ℤ◌
delivery_is_forwarded = refl

-- A held robot, and a key of an earlier call.
abbrev busy : WarehouseTools
busy = record (tools ("bot1" ∷ [])) { stores = record { gen = some 5; consumed = ("k0", 5) ∷ [] } }

held_is_refused :
    is_ok (dispatch reading true busy "dispatch_task" (some 5) (some "k1") bind).payload ≡ false
unfolding dispatch invoke body maybe_forward is_ok plan_nav2_request check is_stale check_and_add
    validate_and_register_dispatch validate_dispatch_inner location_stage robot_stage
    destination_stage register_task_inner timestamp_is_corrupt snapshot_ts is_known_location
    check_location_known check_same_location check_battery check_robot_state check_emergency
    check_rate_limit taken_by_other check_duplicate_destination battery_is_critical
    battery_allows_new_task new_gate has Dict.get is_finite flt fle fsub ◌-ℤ◌
held_is_refused = refl

failure_is_harmless_example :
    let reply = dispatch reading true busy "dispatch_task" (some 5) (some "k1") bind in
    (reply.forwarded ≡ none)
    × IsKept busy reply.tools
    × Remembers (some 5) (some "k1") busy.stores.consumed reply.tools.stores.consumed
    × LogsFailure reply.payload reply.outputs
failure_is_harmless_example =
    failure_is_harmless reading true busy "dispatch_task" (some 5) (some "k1") bind held_is_refused

bot1_is_held : has (tools ("bot1" ∷ [])).gate.emergency "bot1" ≡ true
unfolding has new_gate
bot1_is_held = refl

held_robot_not_driven_example :
    moves "bot1"
      (dispatch reading true
        (tools ("bot1" ∷ []))
        "dispatch_task"
        (some 5)
        (some "k1")
        bind).forwarded
    ≡ false
held_robot_not_driven_example =
    held_robot_not_driven reading true (tools ("bot1" ∷ [])) "dispatch_task" (some 5) (some "k1")
      bind "bot1" bot1_is_held
