-- ===== src/Traffic/Locks.antt =====
-- traffic_logic.py of ws/src/warehouse_traffic/warehouse_traffic: the traffic managers. The route planner
-- is an argument, as in the source; a call of `navigate` of the Nav2 bridge is an output, where a bridge
-- is there.
pub mod Exclusion
use miniature_warehouse_robo.Base.{
  String, Bool, true, false, not, ◌&&◌, ◌||◌, ◌==◌, Option, none, some, List, [], ◌∷◌, ◌++◌, ◌⊎◌,
  inl, inr, is_some, if◌then◌else◌,
}
use miniature_warehouse_robo.Base.Dict
use miniature_warehouse_robo.Base.Dict.{Dict}
use miniature_warehouse_robo.Base.Float.{Float, fle, fsub, units}

abbrev pub mode_none : String
mode_none = "none"

abbrev pub mode_simple : String
mode_simple = "simple"

abbrev pub mode_open_rmf : String
mode_open_rmf = "open-rmf"

abbrev pub aisle_lock_timeout_s : Float
aisle_lock_timeout_s = units 30

-- `waiting` names the aisle to wait for and its occupant.
pub data SubmitResult : Type 0 where
  sent : SubmitResult
  waiting : String → String → SubmitResult

-- `navigate(robot, destination)`
abbrev pub Navigate : Type 0
Navigate = String × String

abbrev pub RoutePlanner : Type 0
RoutePlanner = String → String → List String

abbrev pub no_route : RoutePlanner
no_route pickup dropoff = []

-- `table.get((pickup, dropoff), [])`
unfoldable pub table_route_planner : List ((String × String) × List String) → RoutePlanner
table_route_planner [] pickup dropoff = []
table_route_planner (((p, d), aisles) ∷ table) pickup dropoff =
    let rest = table_route_planner table pickup dropoff in
    if p == pickup && d == dropoff then aisles else rest

pub record SimpleTrafficManager : Type 0 where
  pub has_bridge : Bool
  pub plan_route : RoutePlanner
  pub aisle_locks : Dict (Option String)
  pub acquired_at : Dict Float
  pub lock_timeout_s : Float

unfoldable pub new_manager : Bool → Option RoutePlanner → Float → SimpleTrafficManager
new_manager bridge none timeout = record {
  has_bridge = bridge;
  plan_route = no_route;
  aisle_locks = [];
  acquired_at = [];
  lock_timeout_s = timeout;
}
new_manager bridge (some planner) timeout = record {
  has_bridge = bridge;
  plan_route = planner;
  aisle_locks = [];
  acquired_at = [];
  lock_timeout_s = timeout;
}

-- `occupant and occupant != robot`: the empty name counts as nobody.
abbrev pub other : Option (Option String) → String → Option String
other none robot = none
other (some none) robot = none
other (some (some occupant)) robot =
    if occupant == "" then none else if occupant == robot then none else some occupant

-- The first aisle of the route that somebody else holds, and who.
unfoldable pub first_blocked :
    Dict (Option String) → String → List String → Option (String × String)
first_blocked locks robot [] = none
first_blocked locks robot (aisle ∷ route) = elim (other (Dict.get locks aisle) robot) [
  | some occupant ↦ some (aisle, occupant)
  | none ↦ first_blocked locks robot route
]

unfoldable pub take_all : Dict (Option String) → String → List String → Dict (Option String)
take_all locks robot [] = locks
take_all locks robot (aisle ∷ route) = take_all (Dict.put locks aisle (some robot)) robot route

unfoldable pub stamp_all : Dict Float → List String → Option Float → Dict Float
stamp_all acquired [] now = acquired
stamp_all acquired (aisle ∷ route) none = acquired
stamp_all acquired (aisle ∷ route) (some now) =
    stamp_all (Dict.put acquired aisle now) route (some now)

abbrev navigate : Bool → String → String → List Navigate
navigate bridge robot dropoff = if bridge then (robot, dropoff) ∷ [] else []

abbrev submit_unless :
    Option (String × String)
    → SimpleTrafficManager
    → String
    → List String
    → String
    → Option Float
    → SimpleTrafficManager × SubmitResult × List Navigate
submit_unless (some (aisle, occupant)) m robot route dropoff now = (m, waiting aisle occupant, [])
submit_unless none m robot route dropoff now = (
  record m {
    aisle_locks = take_all m.aisle_locks robot route;
    acquired_at = stamp_all m.acquired_at route now;
  },
  sent,
  navigate m.has_bridge robot dropoff,
)

unfoldable pub submit_task :
    SimpleTrafficManager
    → String
    → String
    → String
    → Option Float
    → SimpleTrafficManager × SubmitResult × List Navigate
unfolding first_blocked take_all stamp_all
submit_task m robot pickup dropoff now =
    let route = m.plan_route pickup dropoff in
    submit_unless (first_blocked m.aisle_locks robot route) m robot route dropoff now

abbrev pub held_by : Option (Option String) → String → Bool
held_by none robot = false
held_by (some none) robot = false
held_by (some (some occupant)) robot = occupant == robot

unfoldable pub release_aisle : SimpleTrafficManager → String → String → SimpleTrafficManager
release_aisle m robot aisle =
    if held_by (Dict.get m.aisle_locks aisle) robot
    then record m {
      aisle_locks = Dict.put m.aisle_locks aisle none;
      acquired_at = Dict.pop m.acquired_at aisle;
    }
    else m

abbrev pub aged : Option Float → Float → Float → Bool
aged none timeout now = false
aged (some since) timeout now = fle timeout (fsub now since)

-- The loop over the locks: robot and aisle.
unfoldable pub expired_of :
    Dict (Option String) → Dict Float → Float → Float → List (String × String)
expired_of [] acquired timeout now = []
expired_of ((aisle, none) ∷ locks) acquired timeout now = expired_of locks acquired timeout now
expired_of ((aisle, some robot) ∷ locks) acquired timeout now =
    let rest = expired_of locks acquired timeout now in
    if aged (Dict.get acquired aisle) timeout now then (robot, aisle) ∷ rest else rest

unfoldable pub expired_locks : SimpleTrafficManager → Float → List (String × String)
unfolding expired_of
expired_locks m now = expired_of m.aisle_locks m.acquired_at m.lock_timeout_s now

-- For each aisle its robot, if it is occupied.
unfoldable pub aisle_states : Dict (Option String) → Dict (Bool × Option String)
aisle_states [] = []
aisle_states ((aisle, none) ∷ locks) = (aisle, (false, none)) ∷ aisle_states locks
aisle_states ((aisle, some robot) ∷ locks) =
    (aisle, (not (robot == ""), some robot)) ∷ aisle_states locks

pub data TrafficError : Type 0 where
  not_implemented unknown_mode : TrafficError

pub data TrafficManager : Type 0 where
  no_traffic : Bool → TrafficManager
  simple : SimpleTrafficManager → TrafficManager

-- `inl` is an exception.
unfoldable pub make_traffic_manager :
    String → Bool → Option RoutePlanner → TrafficError ⊎ TrafficManager
unfolding new_manager
make_traffic_manager mode bridge planner =
    if mode == mode_none
    then inr (no_traffic bridge)
    else if mode == mode_simple
    then inr (simple (new_manager bridge planner aisle_lock_timeout_s))
    else if mode == mode_open_rmf
    then inl not_implemented
    else inl unknown_mode

-- Without a traffic layer every task is sent.
abbrev pub submit_any :
    TrafficManager
    → String
    → String
    → String
    → Option Float
    → TrafficManager × SubmitResult × List Navigate
submit_any (no_traffic bridge) robot pickup dropoff now =
    (no_traffic bridge, sent, navigate bridge robot dropoff)
submit_any (simple m) robot pickup dropoff now =
    let (m', result, sends) = submit_task m robot pickup dropoff now in (simple m', result, sends)
