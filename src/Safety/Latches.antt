-- ===== src/Safety/Latches.antt =====
-- ws/src/warehouse_safety/warehouse_safety/guard_logic.py: `EdgeLatch` and `OperatorStopLatch`.
-- A Python set is a list of its members here, read through the membership test only. `json.loads`
-- is the parameter `loads`; `none` stands for the exception that it raises.
pub mod Edges
pub mod Operator
use miniature_warehouse_robo.Base.{
  ℕ, String, Bool, true, false, not, Option, none, some, List, [], ◌∷◌, ◌==◌, ◌&&◌, ◌||◌, any, map,
  eqb, if◌then◌else◌,
}
use miniature_warehouse_robo.Base.Json.{Json, null, bool, num, str, arr, obj, member}
use miniature_warehouse_robo.Safety.Guard.{
  Reason, near_collision, battery_critical, blocked_timeout, pose_stale, operator_stop_request,
  scan_stale, terrain_health, Decision,
}

abbrev pub Key : Type 0
Key = String × Reason

abbrev code : Reason → ℕ
code near_collision = 0
code battery_critical = 1
code blocked_timeout = 2
code pose_stale = 3
code operator_stop_request = 4
code scan_stale = 5
code terrain_health = 6

abbrev pub same_key : Key → Key → Bool
same_key (b, r) (c, s) = b == c && eqb (code r) (code s)

unfoldable pub holds : List Key → Key → Bool
unfolding any
holds keys k = any (λ j. same_key j k) keys

-- The keys of `now` that `active` does not hold.
pub minus : List Key → List Key → List Key
minus [] active = []
minus (k ∷ now) active = let rest = minus now active in if holds active k then rest else k ∷ rest

abbrev pub keys_of : List Decision → List Key
keys_of [] = []
keys_of (d ∷ ds) = (d.bot, d.reason) ∷ keys_of ds

pub record EdgeLatch : Type 0 where
  pub active : List Key

unfoldable pub new_latch : EdgeLatch
new_latch = record { active = [] }

-- Returns the latch and the keys that are newly active.
pub rising : EdgeLatch → List Decision → EdgeLatch × List Key
unfolding minus holds
rising latch decisions =
    let now = keys_of decisions in (record { active = now }, minus now latch.active)

pub data OperatorAction : Type 0 where
  engage clear : OperatorAction

abbrev action_named : String → Option OperatorAction
action_named s = if s == "engage" then some engage else if s == "clear" then some clear else none

-- `payload.get("action")`, where it is one of the two actions.
abbrev action_of : Option Json → Option OperatorAction
action_of none = none
action_of (some null) = none
action_of (some (bool b)) = none
action_of (some (num n)) = none
action_of (some (str s)) = action_named s
action_of (some (arr xs)) = none
action_of (some (obj fs)) = none

abbrev action_in : Option Json → Option OperatorAction
action_in none = none
action_in (some null) = none
action_in (some (bool b)) = none
action_in (some (num n)) = none
action_in (some (str s)) = none
action_in (some (arr xs)) = none
action_in (some (obj fs)) = action_of (member fs "action")

unfoldable pub parse_operator_stop_action : (String → Option Json) → String → Option OperatorAction
unfolding member
parse_operator_stop_action loads raw = action_in (loads raw)

pub record OperatorStopLatch : Type 0 where
  pub engaged : Bool

unfoldable pub new_operator_latch : OperatorStopLatch
new_operator_latch = record { engaged = false }

abbrev apply : OperatorStopLatch → Option OperatorAction → OperatorStopLatch
apply latch none = latch
apply latch (some engage) = record { engaged = true }
apply latch (some clear) = record { engaged = false }

-- Returns the latch and the accepted action.
unfoldable pub feed :
    (String → Option Json) → OperatorStopLatch → String → OperatorStopLatch × Option OperatorAction
feed loads latch raw =
    let action = parse_operator_stop_action loads raw in (apply latch action, action)
