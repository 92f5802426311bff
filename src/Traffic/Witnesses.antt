-- ===== src/Traffic/Witnesses.antt =====
-- The theorems on the aisle locks at concrete inputs, and tests of the code.
use miniature_warehouse_robo.Base.{String, ◌≡◌, refl, true, none, some, List, [], ◌∷◌, all, inl}
use miniature_warehouse_robo.Base.Int.{◌-ℤ◌}
use miniature_warehouse_robo.Base.Dict
use miniature_warehouse_robo.Base.Dict.{has}
use miniature_warehouse_robo.Base.Float.{units, fle, fsub}
use miniature_warehouse_robo.Traffic.Locks.{
  SimpleTrafficManager, Navigate, new_manager, table_route_planner, submit_task, first_blocked,
  take_all, stamp_all, make_traffic_manager, not_implemented, unknown_mode, aisle_lock_timeout_s,
}
use miniature_warehouse_robo.Traffic.Locks.Exclusion.{
  Op, submitted, released, apply_all, spares, is_waiting, held_until_released,
}
use miniature_warehouse_robo.Traffic.Node.{TrafficManagerNode, submit, check_timeouts}
use miniature_warehouse_robo.Traffic.Node.Deadlock.{free_or_expired, deadlock_broken}

-- Two tasks in opposite directions through one aisle.
abbrev routes : List ((String × String) × List String)
routes = (("west", "east"), "route_A" ∷ []) ∷ (("east", "west"), "route_A" ∷ []) ∷ []

abbrev manager : SimpleTrafficManager
manager = new_manager true (some (table_route_planner routes)) aisle_lock_timeout_s

-- bot1 has taken the aisle at 1 s.
abbrev taken : SimpleTrafficManager
taken = (submit_task manager "bot1" "west" "east" (some (units 1))).0

abbrev attempts : List Op
attempts =
    submitted "bot2" "east" "west" (some (units 2))
    ∷ released "bot2" "route_A"
    ∷ released "bot1" "route_B"
    ∷ []

bot1_holds : Dict.get taken.aisle_locks "route_A" ≡ some (some "bot1")
unfolding submit_task first_blocked take_all new_manager table_route_planner Dict.get Dict.put
bot1_holds = refl

attempts_spare : all (spares "bot1" "route_A") attempts ≡ true
unfolding all
attempts_spare = refl

on_route : has (taken.plan_route "east" "west") "route_A" ≡ true
unfolding submit_task first_blocked new_manager table_route_planner has Dict.get
on_route = refl

held_until_released_example :
    let m' = apply_all taken attempts in
    let r = submit_task m' "bot2" "east" "west" (some (units 3)) in
    (Dict.get m'.aisle_locks "route_A" ≡ some (some "bot1"))
    × (is_waiting r.1 ≡ true)
    × (r.0 ≡ m')
    × (r.2 ≡ [])
held_until_released_example =
    held_until_released taken "bot1" "route_A" attempts "bot2" "east" "west" (some (units 3)) refl
      refl bot1_holds attempts_spare on_route

-- bot2 waits.
abbrev contended : TrafficManagerNode
contended = (submit (record { mgr = taken; held = [] }) "bot2" "east" "west" (units 2)).0

bot2_waits : contended.held ≡ ("bot2", ("east", "west")) ∷ []
unfolding submit submit_task first_blocked take_all new_manager table_route_planner Dict.get
    Dict.put
bot2_waits = refl

bridge_is_there : contended.mgr.has_bridge ≡ true
unfolding submit submit_task first_blocked take_all new_manager table_route_planner Dict.get
    Dict.put
bridge_is_there = refl

lock_is_old :
    all (free_or_expired contended.mgr (units 31) "bot2") (contended.mgr.plan_route "east" "west")
    ≡ true
unfolding submit submit_task first_blocked take_all stamp_all new_manager table_route_planner
    Dict.get Dict.put all fle fsub ◌-ℤ◌
lock_is_old = refl

deadlock_broken_example :
    (more : List Navigate) × ((check_timeouts contended (units 31) (λ r. units 31)).1
      ≡ ("bot2", "west") ∷ more)
deadlock_broken_example =
    deadlock_broken contended (units 31) (λ r. units 31) "bot2" "east" "west" [] bot2_waits
      bridge_is_there lock_is_old

open_rmf_is_refused : make_traffic_manager "open-rmf" true none ≡ inl not_implemented
unfolding make_traffic_manager
open_rmf_is_refused = refl

typo_is_refused : make_traffic_manager "Simple" true none ≡ inl unknown_mode
unfolding make_traffic_manager
typo_is_refused = refl
