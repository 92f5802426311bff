-- ===== src/Teleop/Node/Rearm.antt =====
-- After a stop of the operator, the gestures that the gamepad wants before it drives again.
use miniature_warehouse_robo.Base.{
  ◌≡◌, refl, Bool, true, false, not, ◌&&◌, ◌||◌, Option, none, some, List, [], ◌∷◌, arith,
  if◌then◌else◌, Bool-cases, inl, inr,
}
use miniature_warehouse_robo.Base.Int.{ℤ}
use miniature_warehouse_robo.Base.Float.{Float}
use miniature_warehouse_robo.Teleop.Joymap.{zero_twist, pressed}
use miniature_warehouse_robo.Teleop.Estop.{
  OperatorEstopConfig, OperatorEstopState, operator_estop_config_error, is_neutral, all_pressed,
  chord_rising, engages, releases, rising, operator_estop_step, operator_estop_disarm,
}
use miniature_warehouse_robo.Teleop.Node.{
  Setup, TeleopJoy, new_teleop, Event, joy, timer, handle, handle_all, on_joy, on_timer,
}

-- The deadman is pressed in a sample that the wiring allows.
abbrev presses : OperatorEstopConfig → Event → Bool
presses cfg (joy axes buttons now) =
    not (operator_estop_config_error cfg (some buttons)) && pressed buttons cfg.deadman_button
presses cfg (timer now) = false

-- The sticks are centered.
abbrev centers : OperatorEstopConfig → Event → Bool
centers cfg (joy axes buttons now) = is_neutral axes cfg
centers cfg (timer now) = false

-- The whole clear chord is held, with the deadman and both stop buttons released.
abbrev clears : OperatorEstopConfig → Event → Bool
clears cfg (joy axes buttons now) =
    all_pressed buttons cfg.clear_buttons
    && (not (pressed buttons cfg.deadman_button)
        && (not (pressed buttons cfg.estop_button) && not (pressed buttons cfg.estop_button_alt)))
clears cfg (timer now) = false

abbrev pressed_later : OperatorEstopConfig → List Event → Bool
pressed_later cfg [] = false
pressed_later cfg (e ∷ es) = presses cfg e || pressed_later cfg es

-- Are the sticks centered, and the deadman pressed then or later?
abbrev centered_later : OperatorEstopConfig → List Event → Bool
centered_later cfg [] = false
centered_later cfg (e ∷ es) =
    (centers cfg e && (presses cfg e || pressed_later cfg es)) || centered_later cfg es

-- Is the clear chord held, the sticks centered later, and the deadman pressed then or later still?
abbrev pub cleared_later : OperatorEstopConfig → List Event → Bool
cleared_later cfg [] = false
cleared_later cfg (e ∷ es) = (clears cfg e && centered_later cfg es) || cleared_later cfg es

-- The gestures that are left to make from a state of the latch.
abbrev completes : OperatorEstopConfig → OperatorEstopState → List Event → Bool
completes cfg s es =
    if s.latched
    then cleared_later cfg es
    else if s.armed
    then true
    else if s.neutral_seen
    then pressed_later cfg es
    else centered_later cfg es

centered-pressed :
    (cfg : OperatorEstopConfig) (es : List Event)
    → centered_later cfg es ≡ true
    → pressed_later cfg es ≡ true
centered-pressed cfg [] h = h
centered-pressed cfg (e ∷ es) h = ground (arith, centered-pressed cfg es)

cleared-centered :
    (cfg : OperatorEstopConfig) (es : List Event)
    → cleared_later cfg es ≡ true
    → centered_later cfg es ≡ true
cleared-centered cfg [] h = h
cleared-centered cfg (e ∷ es) h = ground (arith, cleared-centered cfg es)

rising-pressed :
    (prev : Option (List ℤ)) (now : List ℤ) (index : ℤ)
    → rising prev now index ≡ true
    → pressed now index ≡ true
unfolding rising
rising-pressed prev now index h = ground arith

chord-all_pressed :
    (prev : Option (List ℤ)) (now indices : List ℤ)
    → chord_rising prev now indices ≡ true
    → all_pressed now indices ≡ true
unfolding chord_rising
chord-all_pressed none now indices h = absurd (cc)
chord-all_pressed (some prev) now indices h = ground arith

module _ (cfg : OperatorEstopConfig) (s : OperatorEstopState) (es : List Event) where
  -- Whatever a disarmed state has left to make, the state before it had.
  completes-disarmed :
      (e : Event) (prev : Option (List ℤ))
      → completes cfg (record s { armed = false; neutral_seen = false; prev_buttons = prev }) es
        ≡ true
      → completes cfg s (e ∷ es) ≡ true
  completes-disarmed e prev h = ground (arith, centered-pressed cfg es)

  completes-latched : (e : Event) → cleared_later cfg es ≡ true → completes cfg s (e ∷ es) ≡ true
  completes-latched e h = ground (arith, centered-pressed cfg es, cleared-centered cfg es)

  completes-moved :
      (axes : List Float) (buttons : List ℤ) (now : Float)
      → operator_estop_config_error cfg (some buttons) ≡ false
      → let seen = s.neutral_seen || (not s.latched && is_neutral axes cfg) in
        let rises = rising s.prev_buttons buttons cfg.deadman_button in
        completes cfg
            (record {
              latched = s.latched;
              neutral_seen = seen;
              armed = s.armed || (not s.latched && (seen && rises));
              prev_buttons = some buttons;
            })
            es
          ≡ true
        → completes cfg s (joy axes buttons now ∷ es) ≡ true
  completes-moved axes buttons now sound h = ground (
    arith,
    sound,
    rising-pressed s.prev_buttons buttons cfg.deadman_button,
    centered-pressed cfg es,
  )

  completes-released :
      (axes : List Float) (buttons : List ℤ) (now : Float)
      → (s.latched && releases cfg s.prev_buttons buttons) ≡ true
      → centered_later cfg es ≡ true
      → completes cfg s (joy axes buttons now ∷ es) ≡ true
  unfolding releases
  completes-released axes buttons now released h =
      let chord = chord-all_pressed s.prev_buttons buttons cfg.clear_buttons in
      ground (arith, chord)

  completes-step :
      (axes : List Float) (buttons : List ℤ) (now : Float)
      → completes cfg (operator_estop_step cfg s buttons axes).0 es ≡ true
      → completes cfg s (joy axes buttons now ∷ es) ≡ true
  unfolding operator_estop_step
  completes-step axes buttons now h =
      let e = joy axes buttons now in
      let prev = s.prev_buttons in
      elim (Bool-cases (operator_estop_config_error cfg (some buttons))) [
        | inl broken ↦ completes-disarmed e (some buttons) (rw broken at h)
        | inr sound ↦ elim (Bool-cases (engages cfg prev buttons)) [
          | inl engaged ↦ completes-latched e (rw (sound, engaged) at h)
          | inr calm ↦ elim (Bool-cases (s.latched && releases cfg prev buttons)) [
            | inl released ↦
                completes-released axes buttons now released (rw (sound, calm, released) at h)
            | inr held ↦ completes-moved axes buttons now sound (rw (sound, calm, held) at h)
          ]
        ]
      ]

-- Motion is allowed exactly with an armed, unlatched stop.
abbrev pub Matches : TeleopJoy → Type 0
Matches t = t.motion_allowed ≡ (not t.estop_state.latched && t.estop_state.armed)

Matches-step :
    (cfg : OperatorEstopConfig) (s : OperatorEstopState) (buttons : List ℤ) (axes : List Float)
    → let r = operator_estop_step cfg s buttons axes in r.2 ≡ (not r.0.latched && r.0.armed)
unfolding operator_estop_step
Matches-step cfg s buttons axes =
    let prev = s.prev_buttons in
    elim (Bool-cases (operator_estop_config_error cfg (some buttons))) [
      | inl broken ↦ rw broken (ground arith)
      | inr sound ↦ elim (Bool-cases (engages cfg prev buttons)) [
        | inl engaged ↦ rw (sound, engaged) refl
        | inr calm ↦ elim (Bool-cases (s.latched && releases cfg prev buttons)) [
          | inl released ↦ rw (sound, calm, released) refl
          | inr held ↦ rw (sound, calm, held) refl
        ]
      ]
    ]

pub Matches-handle : (s : Setup) (t : TeleopJoy) (e : Event) → Matches t → Matches (handle s t e).0
unfolding handle on_joy on_timer operator_estop_disarm
Matches-handle s t (joy axes buttons now) h = Matches-step s.estop_cfg t.estop_state buttons axes
Matches-handle s t (timer now) h = ground arith

pub Matches-handle_all :
    (s : Setup) (t : TeleopJoy) (es : List Event) → Matches t → Matches (handle_all s t es)
Matches-handle_all s t [] h = h
Matches-handle_all s t (e ∷ es) h =
    Matches-handle_all s (handle s t e).0 es (Matches-handle s t e h)

completes-handle :
    (s : Setup) (t : TeleopJoy) (e : Event) (es : List Event)
    → completes s.estop_cfg (handle s t e).0.estop_state es ≡ true
    → completes s.estop_cfg t.estop_state (e ∷ es) ≡ true
unfolding handle on_joy on_timer operator_estop_disarm
completes-handle s t (joy axes buttons now) es h =
    completes-step s.estop_cfg t.estop_state es axes buttons now h
completes-handle s t (timer now) es h = ground (arith, centered-pressed s.estop_cfg es)

completes-handle_all :
    (s : Setup) (t : TeleopJoy) (es : List Event)
    → completes s.estop_cfg (handle_all s t es).estop_state [] ≡ true
    → completes s.estop_cfg t.estop_state es ≡ true
completes-handle_all s t [] h = h
completes-handle_all s t (e ∷ es) h =
    completes-handle s t e es (completes-handle_all s (handle s t e).0 es h)

zero-on_timer :
    (s : Setup) (t : TeleopJoy) (now : Float)
    → t.motion_allowed ≡ false
    → (on_timer s t now).1 ≡ zero_twist
unfolding on_timer
zero-on_timer s t now held = ground (arith, held)

-- Once the stop is latched, after any events before, the node publishes a zero twist until the whole
-- clear chord has been held with the deadman and both stop buttons released, after that the sticks have
-- been centered, and at that moment or later the deadman has been pressed in a sample that the wiring
-- allows: without these in this order among the events, every timer publishes zero.
pub stopped_until_rearmed :
    (s : Setup) (before since : List Event) (now : Float)
    → let t = handle_all s new_teleop before in
      t.estop_state.latched ≡ true
      → cleared_later s.estop_cfg since ≡ false
      → (on_timer s (handle_all s t since) now).1 ≡ zero_twist
unfolding new_teleop
stopped_until_rearmed s before since now latched nothing =
    let t = handle_all s new_teleop before in
    let t' = handle_all s t since in
    let allowed = Matches-handle_all s t since (Matches-handle_all s new_teleop before refl) in
    elim (Bool-cases t'.motion_allowed) [
      | inl moves ↦
          let done : completes s.estop_cfg t'.estop_state [] ≡ true =
            ground (arith, allowed, moves) in
          let gestures = completes-handle_all s t since done in
          let bad : false ≡ true = ground (arith, latched, nothing, gestures) in absurd (cc)
      | inr held ↦ zero-on_timer s t' now held
    ]
