-- ===== src/Traffic/Node.antt =====
-- traffic_manager.py of ws/src/warehouse_traffic/warehouse_traffic: the node of the yield demo.
pub mod Deadlock
use miniature_warehouse_robo.Base.{
  String, Bool, true, false, Option, none, some, List, [], ◌∷◌, ◌++◌, ◌==◌, if◌then◌else◌,
}
use miniature_warehouse_robo.Base.Dict
use miniature_warehouse_robo.Base.Dict.{Dict}
use miniature_warehouse_robo.Base.Float.{Float}
use miniature_warehouse_robo.Traffic.Locks.{
  SimpleTrafficManager, SubmitResult, sent, waiting, Navigate, submit_task, release_aisle,
  expired_locks,
}

-- The manager, and the tasks that wait: a robot with its pickup and dropoff.
pub record TrafficManagerNode : Type 0 where
  pub mgr : SimpleTrafficManager
  pub held : Dict (String × String)

abbrev held_after :
    Dict (String × String) → SubmitResult → String → String → String → Dict (String × String)
held_after held (waiting aisle occupant) robot pickup dropoff =
    Dict.put held robot (pickup, dropoff)
held_after held sent robot pickup dropoff = Dict.pop held robot

unfoldable pub submit :
    TrafficManagerNode → String → String → String → Float → TrafficManagerNode × List Navigate
unfolding submit_task
submit n robot pickup dropoff now =
    let (m, result, sends) = submit_task n.mgr robot pickup dropoff (some now) in
    (record { mgr = m; held = held_after n.held result robot pickup dropoff }, sends)

-- The loop over the waiting robots, as they were when it began. A submission changes no entry but its own
-- robot's. `clock` is the reading at a robot's turn.
unfoldable pub submit_each :
    TrafficManagerNode
    → Dict (String × String)
    → (String → Float)
    → TrafficManagerNode × List Navigate
unfolding submit
submit_each n [] clock = (n, [])
submit_each n ((robot, (pickup, dropoff)) ∷ waits) clock =
    let (n', sends) = submit n robot pickup dropoff (clock robot) in
    let (n'', more) = submit_each n' waits clock in (n'', sends ++ more)

unfoldable pub resubmit_waiting :
    TrafficManagerNode → (String → Float) → TrafficManagerNode × List Navigate
unfolding submit_each
resubmit_waiting n clock = submit_each n n.held clock

unfoldable pub release_all : SimpleTrafficManager → List (String × String) → SimpleTrafficManager
unfolding release_aisle
release_all m [] = m
release_all m ((robot, aisle) ∷ locks) = release_all (release_aisle m robot aisle) locks

-- The locks of a robot.
unfoldable pub locks_of : Dict (Option String) → String → List (String × String)
locks_of [] robot = []
locks_of ((aisle, none) ∷ locks) robot = locks_of locks robot
locks_of ((aisle, some occupant) ∷ locks) robot =
    let rest = locks_of locks robot in if occupant == robot then (robot, aisle) ∷ rest else rest

-- A failed goal keeps the robot's locks.
unfoldable pub on_goal_done :
    TrafficManagerNode → String → Bool → (String → Float) → TrafficManagerNode × List Navigate
unfolding resubmit_waiting release_all locks_of
on_goal_done n robot succeeded clock =
    if succeeded
    then resubmit_waiting (record n { mgr = release_all n.mgr (locks_of n.mgr.aisle_locks robot) })
        clock
    else (n, [])

unfoldable pub check_timeouts :
    TrafficManagerNode → Float → (String → Float) → TrafficManagerNode × List Navigate
unfolding resubmit_waiting release_all expired_locks
check_timeouts n now clock =
    resubmit_waiting (record n { mgr = release_all n.mgr (expired_locks n.mgr now) }) clock
