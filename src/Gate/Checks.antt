-- ===== src/Gate/Checks.antt =====
-- The pure checks of ws/src/warehouse_mcp_server/warehouse_mcp_server/policy_gate.py and the known
-- locations of ws/src/warehouse_interfaces/warehouse_interfaces/locations.py. A reject reason is a
-- constructor spelled as its text; `none` means accepted.
use miniature_warehouse_robo.Base.{
  String, Bool, false, not, Option, none, some, List, [], ◌∷◌, ◌==◌, ◌&&◌, ◌||◌, if◌then◌else◌,
}
use miniature_warehouse_robo.Base.Dict
use miniature_warehouse_robo.Base.Dict.{Dict, has}
use miniature_warehouse_robo.Base.Float.{Float, flt, fsub, micro, units}
use miniature_warehouse_robo.Safety.Limits.{battery_allows_new_task, battery_is_critical}
use miniature_warehouse_robo.Gate.Freshness.{FreshnessThresholds}

pub data Reason : Type 0 where
  missing_location unknown_location same_location battery_critical battery_low unknown_robot
        robot_unavailable robot_stale robot_in_emergency rate_limited duplicate_destination
        wait_requires_robot state_timestamp_corrupt charging_not_needed :
      Reason

abbrev pub rate_limit_s : Float
rate_limit_s = micro 500_000

abbrev pub charging_not_needed_above : Float
charging_not_needed_above = units 80

abbrev known_locations : List String
known_locations =
    "shelf_1" ∷ "shelf_2" ∷ "shelf_3" ∷ "berth_A" ∷ "berth_B" ∷ "shipping_station"
    ∷ "charging_station" ∷ "retreat_A" ∷ "retreat_B" ∷ []

unfoldable pub is_known_location : String → Bool
unfolding has
is_known_location name = has known_locations name

unfoldable pub check_location_known : Option String → Option Reason
check_location_known none = some missing_location
check_location_known (some name) =
    if not (is_known_location name) then some unknown_location else none

unfoldable pub check_same_location : Option String → Option String → Option Reason
check_same_location none dropoff = none
check_same_location (some pickup) none = none
check_same_location (some pickup) (some dropoff) =
    if pickup == dropoff then some same_location else none

unfoldable pub check_battery : Option Float → Option Reason
check_battery none = none
check_battery (some battery) =
    if battery_is_critical battery
    then some battery_critical
    else if not (battery_allows_new_task battery)
    then some battery_low
    else none

-- The entry of one robot in state.json. A null entry counts as no entry, and a robot whose entry has
-- no battery (or is no object) has `battery = none`.
pub record RobotSnapshot : Type 0 where
  pub battery : Option Float

unfoldable pub check_robot_state :
    Option RobotSnapshot → Float → Option Float → FreshnessThresholds → Option Reason
check_robot_state none now snapshot_ts windows = some unknown_robot
check_robot_state (some snapshot) now none windows = none
check_robot_state (some snapshot) now (some ts) windows =
    let age = fsub now ts in
    if flt windows.unavailable_after_s age
    then some robot_unavailable
    else if flt windows.stale_after_s age
    then some robot_stale
    else none

unfoldable pub check_emergency : Option String → List String → Option Reason
check_emergency none emergency_set = none
check_emergency (some robot) emergency_set =
    if has emergency_set robot then some robot_in_emergency else none

abbrev pub gap_is_short : Option Float → Float → Float → Bool
gap_is_short none now min_gap = false
gap_is_short (some last) now min_gap = flt (fsub now last) min_gap

unfoldable pub check_rate_limit : Option String → Dict Float → Float → Float → Option Reason
check_rate_limit none last_cmd now min_gap = none
check_rate_limit (some robot) last_cmd now min_gap =
    if gap_is_short (Dict.get last_cmd robot) now min_gap then some rate_limited else none

abbrev same_robot : String → Option String → Bool
same_robot other none = false
same_robot other (some robot) = other == robot

-- The loop over `dropoffs_by_robot.items()`.
unfoldable pub taken_by_other : Dict String → String → Option String → Bool
taken_by_other [] dropoff robot = false
taken_by_other ((other, other_dropoff) ∷ rest) dropoff robot =
    (other_dropoff == dropoff && not (same_robot other robot)) || taken_by_other rest dropoff robot

unfoldable pub check_duplicate_destination :
    Option String → Dict String → Option String → Option Reason
unfolding taken_by_other
check_duplicate_destination none dropoffs robot = none
check_duplicate_destination (some dropoff) dropoffs robot =
    if taken_by_other dropoffs dropoff robot then some duplicate_destination else none
