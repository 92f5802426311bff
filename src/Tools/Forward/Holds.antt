-- ===== src/Tools/Forward/Holds.antt =====
-- From the hold of the gate to the Nav2 bridge: what a robot in emergency is never sent.
use miniature_warehouse_robo.Base.{
  ℕ, String, ◌≡◌, refl, sym, ap, Bool, true, false, not, ◌==◌, Option, none, some, arith, eq_iff,
  Bool-cases, Option-cases, inl, inr, if◌then◌else◌, subst,
}
use miniature_warehouse_robo.Base.Dict.{has}
use miniature_warehouse_robo.Gate.Policy.{
  PolicyGate, DispatchResult, rejected, accepted, validate_and_register_dispatch,
  validate_and_register_charging,
}
use miniature_warehouse_robo.Gate.Policy.Dispatch.{is_accepted}
use miniature_warehouse_robo.Gate.Mirror.Holds.{held_gets_nothing}
use miniature_warehouse_robo.Tools.Replay.{check}
use miniature_warehouse_robo.Tools.Calls.{
  DispatchArgs, Call, dispatch_task, cancel_task, get_task_queue, send_to_charging,
  escalation_response, start_negotiation, current, direct, WarehouseTools, Reading, unknown_tool,
  error, body, invoke, dispatched_or_not, charging_or_not,
}
use miniature_warehouse_robo.Tools.Forward.{
  Nav2Request, navigate, wait, stop, plan_nav2_request, maybe_forward, dispatch, failed, with_gen,
  tool_names,
}

-- Does the request move the robot or let it wait under way?
abbrev pub moves : String → Option Nav2Request → Bool
moves bot none = false
moves bot (some (navigate robot destination via)) = robot == bot
moves bot (some (wait robot duration)) = robot == bot
moves bot (some (stop robot)) = false

abbrev addressed : Option String → String → Bool
addressed none bot = false
addressed (some robot) bot = robot == bot

dispatch-still :
    (t : WarehouseTools) (a : DispatchArgs) (bot : String) (result : PolicyGate × DispatchResult)
    → a.robot ≡ some bot
    → is_accepted result.1 ≡ false
    → plan_nav2_request (dispatched_or_not t a result).1 ≡ none
unfolding plan_nav2_request
dispatch-still t a bot (g, rejected why) e h = refl
dispatch-still t a bot (g, accepted task) e h = absurd (cc)

charge-still :
    (t : WarehouseTools) (bot : String) (result : PolicyGate × DispatchResult)
    → is_accepted result.1 ≡ false
    → plan_nav2_request (charging_or_not t bot result).1 ≡ none
unfolding plan_nav2_request
charge-still t bot (g, rejected why) h = refl
charge-still t bot (g, accepted task) h = absurd (cc)

-- A request for another robot, or for none, does not move this one.
dispatch-elsewhere :
    (t : WarehouseTools) (a : DispatchArgs) (bot : String) (result : PolicyGate × DispatchResult)
    → addressed a.robot bot ≡ false
    → moves bot (plan_nav2_request (dispatched_or_not t a result).1) ≡ false
unfolding plan_nav2_request
dispatch-elsewhere t a bot (g, rejected why) h = refl
dispatch-elsewhere t a bot (g, accepted task) h = ground (arith, h)

charge-elsewhere :
    (t : WarehouseTools) (robot bot : String) (result : PolicyGate × DispatchResult)
    → (robot == bot) ≡ false
    → moves bot (plan_nav2_request (charging_or_not t robot result).1) ≡ false
unfolding plan_nav2_request
charge-elsewhere t robot bot (g, rejected why) h = refl
charge-elsewhere t robot bot (g, accepted task) h = h

dispatch-held :
    (r : Reading) (t : WarehouseTools) (a : DispatchArgs) (bot : String) (robot : Option String)
    → has t.gate.emergency bot ≡ true
    → a.robot ≡ robot
    → moves bot (
        plan_nav2_request
          (dispatched_or_not t a (
            validate_and_register_dispatch r.parse_iso t.gate r.state robot a.pickup a.dropoff
              a.action r.now)).1)
      ≡ false
dispatch-held r t a bot none held e = dispatch-elsewhere t a bot _ (rw e refl)
dispatch-held r t a bot (some robot) held e = elim (Bool-cases (robot == bot)) [
  | inr other ↦ dispatch-elsewhere t a bot _ (rw e other)
  | inl same ↦
      let here : robot ≡ bot = (eq_iff robot bot).0 same in
      let nothing =
        (held_gets_nothing r.parse_iso t.gate r.state robot a.pickup a.dropoff a.action r.now
          (subst (λ b. has t.gate.emergency b ≡ true) (sym here) held)).0 in
      ap (moves bot) (dispatch-still t a robot _ e nothing)
]

charge-held :
    (r : Reading) (t : WarehouseTools) (robot bot : String)
    → has t.gate.emergency bot ≡ true
    → moves bot (
        plan_nav2_request
          (charging_or_not t robot
            (validate_and_register_charging r.parse_iso t.gate r.state robot r.now)).1)
      ≡ false
charge-held r t robot bot held = elim (Bool-cases (robot == bot)) [
  | inr other ↦ charge-elsewhere t robot bot _ other
  | inl same ↦
      let here : robot ≡ bot = (eq_iff robot bot).0 same in
      let nothing =
        (held_gets_nothing r.parse_iso t.gate r.state robot none none "deliver" r.now
          (subst (λ b. has t.gate.emergency b ≡ true) (sym here) held)).1 in
      ap (moves bot) (charge-still t robot _ nothing)
]

-- What a check leaves alone, the body sees: only a task for the robot could move it.
body-held :
    (r : Reading) (t : WarehouseTools) (gen_id : ℕ) (call : Call) (bot : String)
    → has t.gate.emergency bot ≡ true
    → moves bot (plan_nav2_request (body r t gen_id call).1) ≡ false
unfolding body plan_nav2_request
body-held r t gen_id (dispatch_task a) bot held = dispatch-held r t a bot a.robot held refl
body-held r t gen_id (cancel_task (current robot)) bot held = ground arith
body-held r t gen_id (cancel_task (direct task_id)) bot held = ground arith
body-held r t gen_id get_task_queue bot held = refl
body-held r t gen_id (send_to_charging robot) bot held = charge-held r t robot bot held
body-held r t gen_id (escalation_response id action new_robot reason) bot held = ground arith
body-held r t gen_id (start_negotiation reference starter context) bot held = ground arith

invoke-held :
    (r : Reading) (t : WarehouseTools) (gen_id : ℕ) (key : Option String) (call : Call)
    (bot : String)
    → has t.gate.emergency bot ≡ true
    → moves bot (plan_nav2_request (invoke r t gen_id key call).1) ≡ false
unfolding invoke
invoke-held r t gen_id key call bot held =
    let t' : WarehouseTools = record t { stores = (check t.stores gen_id key).0 } in
    elim (Option-cases (check t.stores gen_id key).1) [
      | inr (why, e) ↦ rw e (unfold plan_nav2_request in refl)
      | inl passed ↦ rw passed (body-held r t' gen_id call bot held)
    ]

reply-held :
    (r : Reading) (has_forwarder : Bool) (t : WarehouseTools) (known : Bool) (gen_id : Option ℕ)
    → (key : Option String) (call : Option Call) (bot : String) → has t.gate.emergency bot ≡ true
    → let reply =
        if not known
        then failed t error unknown_tool
        else with_gen r has_forwarder t gen_id key call in
      moves bot reply.forwarded ≡ false
unfolding maybe_forward
reply-held r has_forwarder t false gen_id key call bot held = refl
reply-held r has_forwarder t true none key call bot held = refl
reply-held r has_forwarder t true (some gen_id) key none bot held = refl
reply-held r has_forwarder t true (some gen_id) key (some call) bot held =
    ground (arith, invoke-held r t gen_id key call bot held)

-- While the gate holds a robot in emergency, no message of the language model makes the bridge drive
-- that robot or let it wait under way: whatever the tool, its arguments, the generation and the key, the
-- request that is forwarded is none, one for another robot, or a stop.
pub held_robot_not_driven :
    (r : Reading) (has_forwarder : Bool) (t : WarehouseTools) (name : String) (gen_id : Option ℕ)
    → (key : Option String) (bind : String → Option Call) (bot : String)
    → has t.gate.emergency bot ≡ true
    → moves bot (dispatch r has_forwarder t name gen_id key bind).forwarded ≡ false
unfolding dispatch
held_robot_not_driven r has_forwarder t name gen_id key bind bot held =
    reply-held r has_forwarder t (has tool_names name) gen_id key (bind name) bot held
