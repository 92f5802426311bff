-- ===== src/Tools/Forward/Errors.antt =====
-- What a call that fails does.
use miniature_warehouse_robo.Base.{
  ℕ, String, ◌≡◌, refl, ap, sym, subst, Bool, true, false, not, Option, none, some, List, [], ◌∷◌,
  arith, Option-cases, inl, inr, if◌then◌else◌, ◌≢◌,
}
use miniature_warehouse_robo.Base.Dict
use miniature_warehouse_robo.Base.Dict.{Dict, has, pop-missing}
use miniature_warehouse_robo.Base.Float.{Float}
use miniature_warehouse_robo.Gate.Checks.{Reason}
use miniature_warehouse_robo.Gate.Policy.{
  register_unless, validate_and_register_dispatch, resolve_and_clear_active,
  validate_and_register_charging, validate_dispatch_inner, validate_charging,
}
use miniature_warehouse_robo.Tools.Replay.{Stores, check}
use miniature_warehouse_robo.Tools.Forward.Kept.{
  IsKept, IsKept-refl, IsKept-trans, IsKept-check, KeepsDestination-pop, Remembers, Remembers-refl,
  Remembers-check,
}
use miniature_warehouse_robo.Tools.Calls.{
  DispatchArgs, Call, dispatch_task, cancel_task, get_task_queue, send_to_charging,
  escalation_response, start_negotiation, current, direct, Payload, Outcome, executed, was_rejected,
  Output, audit, WarehouseTools, Reading, Answer, body, invoke, dispatched_or_not, cancelled_or_not,
  charging_or_not, resolve, reject, negotiate, no_active_task, unknown_action, unknown_starter,
  refused, unknown_tool, missing_gen_id, bad_arguments, error, escalation_actions,
  negotiation_starters,
}
use miniature_warehouse_robo.Tools.Forward.{
  is_ok, maybe_forward, Reply, dispatch, failed, with_gen, tool_names,
}

-- One audit record of a refusal or an error, with the payload.
abbrev pub LogsFailure : Payload → List Output → Type 0
LogsFailure payload outputs = (o : Outcome) × (outputs ≡ audit o payload ∷ []) × (o ≢ executed)

abbrev Fails : WarehouseTools → Answer → Type 0
Fails t (t', payload, outputs) = IsKept t t' × (t'.stores ≡ t.stores) × LogsFailure payload outputs

logged : (payload : Payload) → LogsFailure payload (audit was_rejected payload ∷ [])
logged payload = (was_rejected, refl, λ e. cc)

dispatch-Fails :
    (t : WarehouseTools) (a : DispatchArgs) (why : Option Reason) (now : Float)
    → let answer = dispatched_or_not t a (register_unless why t.gate a.robot a.dropoff now) in
      is_ok answer.1 ≡ false → Fails t answer
unfolding is_ok
dispatch-Fails t a (some why) now h = (IsKept-refl t, refl, logged _)
dispatch-Fails t a none now h = absurd (cc)

charge-Fails :
    (t : WarehouseTools) (robot : String) (why : Option Reason) (now : Float)
    → let answer =
        charging_or_not t robot
          (register_unless why t.gate (some robot) (some "charging_station") now) in
      is_ok answer.1 ≡ false → Fails t answer
unfolding is_ok
charge-Fails t robot (some why) now h = (IsKept-refl t, refl, logged _)
charge-Fails t robot none now h = absurd (cc)

cancel-Fails :
    (t : WarehouseTools) (robot : String) (task : Option ℕ)
    → Dict.get t.gate.active_tasks robot ≡ task
    → let gate = (resolve_and_clear_active t.gate robot).0 in
      let answer = cancelled_or_not t robot (gate, task) in is_ok answer.1 ≡ false → Fails t answer
unfolding is_ok resolve_and_clear_active
cancel-Fails t robot none missing h = (
  record {
    windows = refl;
    tasks = pop-missing t.gate.active_tasks robot missing;
    destinations =
        λ other. KeepsDestination-pop t.gate.active_tasks t.gate.dropoffs robot other missing;
    holds = refl;
    commands = refl;
    counter = refl;
    escalations = refl;
    negotiations = refl;
    gen = refl;
  },
  refl,
  logged (no_active_task robot),
)
cancel-Fails t robot (some task) found h = absurd (cc)

resolve-Fails :
    (t : WarehouseTools) (known : Option Bool) (id action : String) (new_robot : Option String)
    → (reason : String)
    → let answer = resolve t known id action new_robot reason in
      is_ok answer.1 ≡ false → Fails t answer
unfolding is_ok
resolve-Fails t none id action new_robot reason h = (IsKept-refl t, refl, logged _)
resolve-Fails t (some true) id action new_robot reason h = (IsKept-refl t, refl, logged _)
resolve-Fails t (some false) id action new_robot reason h = absurd (cc)

escalation-Fails :
    (t : WarehouseTools) (known : Bool) (entry : Option Bool) (id action : String)
    → (new_robot : Option String) (reason : String)
    → let answer =
        if not known
        then reject t (unknown_action action)
        else resolve t entry id action new_robot reason in
      is_ok answer.1 ≡ false → Fails t answer
unfolding is_ok
escalation-Fails t false entry id action new_robot reason h =
    (IsKept-refl t, refl, logged (unknown_action action))
escalation-Fails t true entry id action new_robot reason h =
    resolve-Fails t entry id action new_robot reason h

negotiation-Fails :
    (r : Reading) (t : WarehouseTools) (gen_id : ℕ) (known : Bool)
    → (reference starter context : String)
    → let answer = negotiate r t gen_id known reference starter context in
      is_ok answer.1 ≡ false → Fails t answer
unfolding is_ok
negotiation-Fails r t gen_id false reference starter context h =
    (IsKept-refl t, refl, logged unknown_starter)
negotiation-Fails r t gen_id true reference starter context h = absurd (cc)

body-Fails :
    (r : Reading) (t : WarehouseTools) (gen_id : ℕ) (call : Call)
    → is_ok (body r t gen_id call).1 ≡ false
    → Fails t (body r t gen_id call)
unfolding body is_ok validate_and_register_dispatch validate_and_register_charging
    resolve_and_clear_active
body-Fails r t gen_id (dispatch_task a) h =
    let why =
      validate_dispatch_inner r.parse_iso t.gate r.state a.robot a.pickup a.dropoff a.action
        r.now in
    dispatch-Fails t a why r.now h
body-Fails r t gen_id (cancel_task (current robot)) h =
    cancel-Fails t robot (Dict.get t.gate.active_tasks robot) refl h
body-Fails r t gen_id (cancel_task (direct task_id)) h = absurd (cc)
body-Fails r t gen_id get_task_queue h = absurd (cc)
body-Fails r t gen_id (send_to_charging robot) h =
    charge-Fails t robot (validate_charging r.parse_iso t.gate r.state robot r.now) r.now h
body-Fails r t gen_id (escalation_response id action new_robot reason) h =
    escalation-Fails t (has escalation_actions action) (Dict.get t.escalations id) id action
      new_robot reason h
body-Fails r t gen_id (start_negotiation reference starter context) h =
    negotiation-Fails r t gen_id (has negotiation_starters starter) reference starter context h

-- A call that failed after the generation was read: what it kept, and what it remembers.
abbrev Spares : WarehouseTools → Option ℕ → Option String → Answer → Type 0
Spares t gen_id key (t', payload, outputs) =
    IsKept t t'
    × Remembers gen_id key t.stores.consumed t'.stores.consumed
    × LogsFailure payload outputs

invoke-Spares :
    (r : Reading) (t : WarehouseTools) (gen_id : ℕ) (key : Option String) (call : Call)
    → is_ok (invoke r t gen_id key call).1 ≡ false
    → Spares t (some gen_id) key (invoke r t gen_id key call)
unfolding invoke is_ok
invoke-Spares r t gen_id key call h =
    let kept = IsKept-check t gen_id key in
    let remembered = Remembers-check t.stores gen_id key in
    let t' : WarehouseTools = record t { stores = (check t.stores gen_id key).0 } in
    elim (Option-cases (check t.stores gen_id key).1) [
      | inr (why, e) ↦ rw e (kept, remembered, logged (refused why))
      | inl passed ↦
          let fails : is_ok (body r t' gen_id call).1 ≡ false = rw passed at h in
          let (moved, stores, log) = body-Fails r t' gen_id call fails in
          let c = ap (λ (s : Stores). s.consumed) (sym stores) in
          rw passed (
            IsKept-trans t t' (body r t' gen_id call).0 kept moved,
            subst (Remembers (some gen_id) key t.stores.consumed) c remembered,
            log,
          )
    ]

abbrev Harmless : WarehouseTools → Option ℕ → Option String → Reply → Type 0
Harmless t gen_id key reply =
    (reply.forwarded ≡ none)
    × IsKept t reply.tools
    × Remembers gen_id key t.stores.consumed reply.tools.stores.consumed
    × LogsFailure reply.payload reply.outputs

errs : (payload : Payload) → LogsFailure payload (audit error payload ∷ [])
errs payload = (error, refl, λ e. cc)

forwards_nothing :
    (has_forwarder : Bool) (payload : Payload)
    → is_ok payload ≡ false
    → maybe_forward has_forwarder payload ≡ none
unfolding maybe_forward
forwards_nothing has_forwarder payload h = ground (arith, h)

reply-fails :
    (r : Reading) (has_forwarder : Bool) (t : WarehouseTools) (known : Bool) (gen_id : Option ℕ)
    → (key : Option String) (call : Option Call)
    → let reply =
        if not known
        then failed t error unknown_tool
        else with_gen r has_forwarder t gen_id key call in
      is_ok reply.payload ≡ false → Harmless t gen_id key reply
unfolding is_ok
reply-fails r has_forwarder t false gen_id key call h =
    (refl, IsKept-refl t, Remembers-refl gen_id key t.stores.consumed, errs unknown_tool)
reply-fails r has_forwarder t true none key call h =
    (refl, IsKept-refl t, Remembers-refl none key t.stores.consumed, logged missing_gen_id)
reply-fails r has_forwarder t true (some gen_id) key none h =
    (refl, IsKept-refl t, Remembers-refl (some gen_id) key t.stores.consumed, errs bad_arguments)
reply-fails r has_forwarder t true (some gen_id) key (some call) h =
    let (kept, remembered, log) = invoke-Spares r t gen_id key call h in
    (forwards_nothing has_forwarder (invoke r t gen_id key call).1 h, kept, remembered, log)

-- A call that does not return the status "ok" forwards nothing and is logged once, with what it returns
-- and not as executed: an unknown tool, a missing generation, arguments that do not bind, a stale or
-- repeated call, and every refusal of a tool. It leaves the gate, the escalations, the negotiations and
-- the generation as they were, but that the destination of a robot without a task may be gone. Of the
-- memory of keys it forgets and changes none inside the window of the call's generation, and it adds none
-- but the call's own; without a generation it forgets none.
pub failure_is_harmless :
    (r : Reading) (has_forwarder : Bool) (t : WarehouseTools) (name : String) (gen_id : Option ℕ)
    → (key : Option String) (bind : String → Option Call)
    → let reply = dispatch r has_forwarder t name gen_id key bind in
      is_ok reply.payload ≡ false
      → (reply.forwarded ≡ none)
        × IsKept t reply.tools
        × Remembers gen_id key t.stores.consumed reply.tools.stores.consumed
        × LogsFailure reply.payload reply.outputs
unfolding dispatch is_ok
failure_is_harmless r has_forwarder t name gen_id key bind h =
    reply-fails r has_forwarder t (has tool_names name) gen_id key (bind name) h
