-- ===== src/Tools/Calls.antt =====
-- tools.py of ws/src/warehouse_mcp_server/warehouse_mcp_server: the seven tools. Each is a coroutine that
-- runs to its end between two others of the same loop; its first line is the generation check. The
-- arguments come as Python binds them to the parameters; a failure to bind is in `dispatch` of
-- Tools.Forward. A task id is the number in its text, and the audit log and the messages are outputs.
use miniature_warehouse_robo.Base.{
  ℕ, suc, String, Bool, true, false, not, Option, none, some, List, [], ◌∷◌, if◌then◌else◌,
}
use miniature_warehouse_robo.Base.Dict
use miniature_warehouse_robo.Base.Dict.{Dict, has}
use miniature_warehouse_robo.Base.Float.{Float}
use miniature_warehouse_robo.Gate.Checks.{Reason}
use miniature_warehouse_robo.Gate.Policy.{
  PolicyGate, FleetState, DispatchResult, rejected, accepted, validate_and_register_dispatch,
  resolve_and_clear_active, resolve_and_clear_by_task_id, validate_and_register_charging,
}
use miniature_warehouse_robo.Tools.Replay.{Stores, Refusal, check}

-- `task_id`: "current:{robot}", or the id of a task.
pub data Target : Type 0 where
  current : String → Target
  direct : ℕ → Target

pub record DispatchArgs : Type 0 where
  pub robot : Option String
  pub pickup : Option String
  pub dropoff : Option String
  pub priority : String
  pub via : Option String
  pub action : String
  pub duration : Option Float

-- A tool with the arguments after `gen_id`, without the key.
pub data Call : Type 0 where
  dispatch_task : DispatchArgs → Call
  cancel_task : Target → Call
  get_task_queue : Call
  send_to_charging : String → Call
  escalation_response : String → String → Option String → String → Call
  start_negotiation : String → String → String → Call

-- What a call returns: the refusals, and the results with the status "ok".
pub data Payload : Type 0 where
  refused : Refusal → Payload
  gate_rejected : Reason → Payload
  no_active_task : String → Payload
  unknown_action : String → Payload
  unknown_escalation_id already_resolved unknown_starter : Payload
  unknown_tool missing_gen_id bad_arguments : Payload
  dispatched : ℕ → DispatchArgs → Payload
  cancelled : ℕ → Option String → Payload
  queue : Dict ℕ → Payload
  charging : ℕ → String → Payload
  escalated : String → String → Option String → String → Payload
  negotiating : ℕ → String → String → String → Payload

pub data Outcome : Type 0 where
  executed was_rejected error : Outcome

-- `start_envelope` is the number of the negotiation, the generation, the starter, the reference and the context.
pub data Output : Type 0 where
  audit : Outcome → Payload → Output
  start_envelope : ℕ → ℕ → String → String → String → Output

pub record WarehouseTools : Type 0 where
  pub stores : Stores
  pub gate : PolicyGate
  pub escalations : Dict Bool
  pub negotiation_seq : ℕ

-- What a call reads besides the state: `parse_iso`, the snapshot of state.json, the time, and whether the
-- publisher of negotiations is wired.
pub record Reading : Type 0 where
  pub parse_iso : String → Option Float
  pub state : FleetState
  pub now : Float
  pub has_starter : Bool

abbrev pub Answer : Type 0
Answer = WarehouseTools × Payload × List Output

abbrev pub reject : WarehouseTools → Payload → Answer
reject t payload = (t, payload, audit was_rejected payload ∷ [])

abbrev pub execute : WarehouseTools → Payload → Answer
execute t payload = (t, payload, audit executed payload ∷ [])

abbrev pub dispatched_or_not : WarehouseTools → DispatchArgs → PolicyGate × DispatchResult → Answer
dispatched_or_not t args (gate, rejected reason) =
    reject (record t { gate = gate }) (gate_rejected reason)
dispatched_or_not t args (gate, accepted task_id) =
    execute (record t { gate = gate }) (dispatched task_id args)

abbrev pub cancelled_or_not : WarehouseTools → String → PolicyGate × Option ℕ → Answer
cancelled_or_not t robot (gate, none) = reject (record t { gate = gate }) (no_active_task robot)
cancelled_or_not t robot (gate, some task_id) =
    execute (record t { gate = gate }) (cancelled task_id (some robot))

abbrev pub charging_or_not : WarehouseTools → String → PolicyGate × DispatchResult → Answer
charging_or_not t robot (gate, rejected reason) =
    reject (record t { gate = gate }) (gate_rejected reason)
charging_or_not t robot (gate, accepted task_id) =
    execute (record t { gate = gate }) (charging task_id robot)

abbrev pub escalation_actions : List String
escalation_actions = "reassign" ∷ "cancel" ∷ "retry" ∷ []

abbrev pub negotiation_starters : List String
negotiation_starters = "bot1" ∷ "bot2" ∷ []

abbrev pub resolve :
    WarehouseTools → Option Bool → String → String → Option String → String → Answer
resolve t none id action new_robot reason = reject t unknown_escalation_id
resolve t (some true) id action new_robot reason = reject t already_resolved
resolve t (some false) id action new_robot reason =
    execute (record t { escalations = Dict.put t.escalations id true })
      (escalated id action new_robot reason)

abbrev pub negotiate : Reading → WarehouseTools → ℕ → Bool → String → String → String → Answer
negotiate r t gen_id known reference starter context =
    let seq = suc t.negotiation_seq in
    let payload = negotiating seq reference starter context in
    if not known then reject t unknown_starter else (
      record t { negotiation_seq = seq },
      payload,
      audit executed payload
          ∷ (if r.has_starter
              then start_envelope seq gen_id starter reference context ∷ []
              else []),
    )

-- The body of a tool, after the check.
unfoldable pub body : Reading → WarehouseTools → ℕ → Call → Answer
unfolding has
body r t gen_id (dispatch_task a) = dispatched_or_not t a (
    validate_and_register_dispatch r.parse_iso t.gate r.state a.robot a.pickup a.dropoff a.action
      r.now)
body r t gen_id (cancel_task (current robot)) =
    cancelled_or_not t robot (resolve_and_clear_active t.gate robot)
body r t gen_id (cancel_task (direct task_id)) =
    let (gate, robot) = resolve_and_clear_by_task_id t.gate task_id in
    execute (record t { gate = gate }) (cancelled task_id robot)
body r t gen_id get_task_queue = execute t (queue t.gate.active_tasks)
body r t gen_id (send_to_charging robot) =
    charging_or_not t robot (validate_and_register_charging r.parse_iso t.gate r.state robot r.now)
body r t gen_id (escalation_response id action new_robot reason) =
    if not (has escalation_actions action)
    then reject t (unknown_action action)
    else resolve t (Dict.get t.escalations id) id action new_robot reason
body r t gen_id (start_negotiation reference starter context) =
    negotiate r t gen_id (has negotiation_starters starter) reference starter context

abbrev after_check : Reading → WarehouseTools → ℕ → Call → Stores × Option Refusal → Answer
after_check r t gen_id call (stores, some why) = reject (record t { stores = stores }) (refused why)
after_check r t gen_id call (stores, none) = body r (record t { stores = stores }) gen_id call

-- A tool: the check, and the body unless it refuses.
unfoldable pub invoke : Reading → WarehouseTools → ℕ → Option String → Call → Answer
unfolding body
invoke r t gen_id key call = after_check r t gen_id call (check t.stores gen_id key)
