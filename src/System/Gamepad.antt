-- ===== src/System/Gamepad.antt =====
-- The gamepad and the Guardian together: `_on_estop_action` of teleop_joy.py publishes on
-- /operator/stop_request, where `_on_operator_stop` of emergency_guardian.py reads it.
use miniature_warehouse_robo.Base.{
  String, ◌≡◌, refl, ◌∙◌, sym, Bool, true, false, ◌&&◌, Option, none, some, List, [], ◌∷◌, ◌++◌,
  arith, ap, Bool-cases, inl, inr,
}
use miniature_warehouse_robo.Base.Int.{ℤ}
use miniature_warehouse_robo.Base.Float.{Float}
use miniature_warehouse_robo.Base.Json.{Json, str, obj, field, end, member}
use miniature_warehouse_robo.Safety.Latches.{
  OperatorAction, OperatorStopLatch, new_operator_latch, parse_operator_stop_action, feed,
}
use miniature_warehouse_robo.Safety.Latches as Latches
use miniature_warehouse_robo.Safety.Latches.Operator.{feed_all, state_after, engaged-feed_all}
use miniature_warehouse_robo.Safety.Guardian.{Env, Config, Guardian, check_safety}
use miniature_warehouse_robo.Safety.Guardian.Publish.{twisted}
use miniature_warehouse_robo.Safety.Guardian.Runs.{Input, receive_all, payloads, engage_stops_fleet}
use miniature_warehouse_robo.Teleop.Estop.{
  OperatorEstopConfig, OperatorEstopState, EstopAction, none_action, engage, clear,
  operator_estop_config_error, engages, releases, operator_estop_step, operator_estop_disarm,
}
use miniature_warehouse_robo.Teleop.Node.{
  Setup, TeleopJoy, new_teleop, Event, joy, timer, engage_payload, clear_payload, on_estop_action,
  on_joy, on_timer, handle, handle_all, published,
}

abbrev pub action_json : String → Json
action_json action = obj (field "action" (str action) end)

-- The latch moves as the action says.
abbrev moved : Bool → EstopAction → Bool
moved before none_action = before
moved before engage = true
moved before clear = false

step-moved :
    (cfg : OperatorEstopConfig) (s : OperatorEstopState) (buttons : List ℤ) (axes : List Float)
    → let r = operator_estop_step cfg s buttons axes in r.0.latched ≡ moved s.latched r.1
unfolding operator_estop_step
step-moved cfg s buttons axes =
    let prev = s.prev_buttons in
    elim (Bool-cases (operator_estop_config_error cfg (some buttons))) [
      | inl broken ↦ rw broken refl
      | inr sound ↦ elim (Bool-cases (engages cfg prev buttons)) [
        | inl engaged ↦ rw (sound, engaged) refl
        | inr calm ↦ elim (Bool-cases (s.latched && releases cfg prev buttons)) [
          | inl released ↦ rw (sound, calm, released) refl
          | inr held ↦ rw (sound, calm, held) refl
        ]
      ]
    ]

feed_all-append :
    (loads : String → Option Json) (latch : OperatorStopLatch) (xs ys : List String)
    → feed_all loads latch (xs ++ ys) ≡ feed_all loads (feed_all loads latch xs) ys
feed_all-append loads latch [] ys = refl
feed_all-append loads latch (x ∷ xs) ys = feed_all-append loads (feed loads latch x).0 xs ys

module _ (loads : String → Option Json) (s : Setup) (publishes : s.publishes_stop ≡ true)
    (reads_engage : loads engage_payload ≡ some (action_json "engage"))
    (reads_clear : loads clear_payload ≡ some (action_json "clear")) where
  follow-action :
      (latch : OperatorStopLatch) (action : EstopAction)
      → (feed_all loads latch (on_estop_action s action)).engaged ≡ moved latch.engaged action
  unfolding feed parse_operator_stop_action member
  follow-action latch none_action = refl
  follow-action latch engage = rw (publishes, reads_engage) refl
  follow-action latch clear = rw (publishes, reads_clear) refl

  follow-handle :
      (latch : OperatorStopLatch) (t : TeleopJoy) (e : Event)
      → latch.engaged ≡ t.estop_state.latched
      → (feed_all loads latch (handle s t e).1).engaged ≡ (handle s t e).0.estop_state.latched
  unfolding handle on_joy on_timer operator_estop_disarm
  follow-handle latch t (joy axes buttons now) h =
      let r = operator_estop_step s.estop_cfg t.estop_state buttons axes in
      follow-action latch r.1
      ∙ ap (λ b. moved b r.1) h
      ∙ sym (step-moved s.estop_cfg t.estop_state buttons axes)
  follow-handle latch t (timer now) h = ground (arith, h)

  -- A latch that is fed what the gamepad publishes is the gamepad's own.
  follow-handle_all :
      (latch : OperatorStopLatch) (t : TeleopJoy) (es : List Event)
      → latch.engaged ≡ t.estop_state.latched
      → (feed_all loads latch (published s t es)).engaged ≡ (handle_all s t es).estop_state.latched
  unfolding published
  follow-handle_all latch t [] h = h
  follow-handle_all latch t (e ∷ es) h =
      let first = (handle s t e).1 in
      let t' = (handle s t e).0 in
      ap (λ l. l.engaged) (feed_all-append loads latch first (published s t' es))
      ∙ follow-handle_all (feed_all loads latch first) t' es (follow-handle latch t e h)

named_engage :
    (action : Option OperatorAction)
    → state_after false action ≡ true
    → action ≡ some Latches.engage
named_engage none h = absurd (cc)
named_engage (some Latches.engage) h = refl
named_engage (some Latches.clear) h = absurd (cc)

-- A gamepad that publishes its stop, after any events from its start: once the Guardian, from any state,
-- has received on the topic what the gamepad published, in that order and among any other inputs, its
-- tick sends a zero Twist to both robots whenever the gamepad's stop is latched. `json.loads` is taken
-- to read the two payloads.
pub gamepad_stop_reaches_fleet :
    (env : Env) (cfg : Config) (ready : String → Bool) (g : Guardian)
    → (s : Setup) (es : List Event) (js : List Input) (now : Float) → s.publishes_stop ≡ true
    → env.loads engage_payload ≡ some (action_json "engage")
    → env.loads clear_payload ≡ some (action_json "clear")
    → payloads js ≡ published s new_teleop es
    → (handle_all s new_teleop es).estop_state.latched ≡ true
    → let outputs = (check_safety env cfg ready (receive_all env cfg g js) now).1 in
      (twisted outputs "bot1" ≡ true) × (twisted outputs "bot2" ≡ true)
unfolding new_teleop new_operator_latch
gamepad_stop_reaches_fleet env cfg ready g s es js now on reads_engage reads_clear topic latched =
    let follow =
      follow-handle_all env.loads s on reads_engage reads_clear new_operator_latch new_teleop es
        refl in
    let held =
      ap (λ raws. (feed_all env.loads new_operator_latch raws).engaged) topic ∙ follow ∙ latched in
    let named = sym (engaged-feed_all env.loads new_operator_latch (payloads js)) ∙ held in
    engage_stops_fleet env cfg ready g js now (named_engage _ named)
