-- ===== src/System/Driving.antt =====
-- The Guardian and the motor driver together: `_publish_stop_state` of emergency_guardian.py writes
-- /bot{n}/stop_state, and `decode_stop_state` of the driver reads it. `json.dumps` is the parameter `dumps`.
use miniature_warehouse_robo.Base.{
  String, ◌≡◌, refl, ◌∙◌, sym, Bool, true, false, Option, none, some, List, [], ◌∷◌, ◌++◌, ◌==◌,
  arith, ap, if◌then◌else◌, ℕ, suc, Option-cases, inl, inr,
}
use miniature_warehouse_robo.Base.Json.{Json, bool, num, obj, field, end, member}
use miniature_warehouse_robo.Base.Float.{Float, fadd}
use miniature_warehouse_robo.Safety.Guard.{Decision, Action, estop, recovery, stop_requested_for}
use miniature_warehouse_robo.Safety.Latches.{Key, holds, rising}
use miniature_warehouse_robo.Safety.Guardian.{
  Env, Config, Guardian, Output, cancel_goals, zero_twist, event, abort, stop_state, act, act_all,
  publish_event, publish_stop_state, stop_state_valid_window, check_safety, decide,
}
use miniature_warehouse_robo.Safety.Guardian.Publish.{twisted, twist_matches_feed}
use miniature_warehouse_robo.Driver.Core.{brake}
use miniature_warehouse_robo.Driver.StopState.{
  decode_stop_state, loads_no_duplicate_keys, repeats_key,
}
use miniature_warehouse_robo.Driver.Node.{Setup, Event, cmd_vel, handle, core_after}
use miniature_warehouse_robo.Driver.Node as Driver
use miniature_warehouse_robo.Driver.Node.History.{granted, latest, granted-latest}
use miniature_warehouse_robo.Driver.Node.Runs.{permitted, handle-cmd_vel}

abbrev pub state_json : Bool → Float → Json
state_json stop until =
    obj (field "stop_requested" (bool stop) (field "valid_until" (num until) end))

abbrev pub payload_of : (Json → String) → Bool → Float → String
payload_of dumps stop until = dumps (state_json stop until)

-- What a list of outputs puts on the stop_state topic of a robot.
pub states_of : (Json → String) → List Output → String → List String
states_of dumps [] bot = []
states_of dumps (cancel_goals b ∷ os) bot = states_of dumps os bot
states_of dumps (zero_twist b ∷ os) bot = states_of dumps os bot
states_of dumps (event e ∷ os) bot = states_of dumps os bot
states_of dumps (abort r b c ∷ os) bot = states_of dumps os bot
states_of dumps (stop_state b stop until ∷ os) bot =
    let rest = states_of dumps os bot in
    if b == bot then payload_of dumps stop until ∷ rest else rest

states_of-append :
    (dumps : Json → String) (xs ys : List Output) (bot : String)
    → states_of dumps (xs ++ ys) bot ≡ states_of dumps xs bot ++ states_of dumps ys bot
unfolding states_of
states_of-append dumps [] ys bot = refl
states_of-append dumps (cancel_goals b ∷ xs) ys bot = states_of-append dumps xs ys bot
states_of-append dumps (zero_twist b ∷ xs) ys bot = states_of-append dumps xs ys bot
states_of-append dumps (event e ∷ xs) ys bot = states_of-append dumps xs ys bot
states_of-append dumps (abort r b c ∷ xs) ys bot = states_of-append dumps xs ys bot
states_of-append dumps (stop_state b stop until ∷ xs) ys bot =
    ground (arith, states_of-append dumps xs ys bot)

module _ (dumps : Json → String) (env : Env) (ready : String → Bool) where
  states_of-act :
      (n : ℕ) (d : Decision) (a : Action) (emit : Bool) (bot : String)
      → states_of dumps (act env ready n d a emit) bot ≡ []
  unfolding states_of publish_event
  states_of-act n d estop emit bot = ground arith
  states_of-act n d recovery emit bot = ground arith

  states_of-act_all :
      (fresh : List Key) (seq : ℕ) (ds : List Decision) (bot : String)
      → states_of dumps (act_all env ready fresh seq ds).1 bot ≡ []
  unfolding act_all states_of
  states_of-act_all fresh seq [] bot = refl
  states_of-act_all fresh seq (d ∷ ds) bot =
      let emit = holds fresh (d.bot, d.reason) in
      let seq' = if emit then suc seq else seq in
      rw (
        states_of-append dumps,
        states_of-act seq' d d.action emit bot,
        states_of-act_all fresh seq' ds bot,
      )

  -- A tick publishes one state to each robot.
  states_of-check_safety :
      (cfg : Config) (g : Guardian) (now : Float)
      → let outputs = (check_safety env cfg ready g now).1 in
        let ds = (decide env cfg g now).1 in
        let until = fadd now stop_state_valid_window in
        (states_of dumps outputs "bot1"
          ≡ payload_of dumps (stop_requested_for ds "bot1") until ∷ [])
        × (states_of dumps outputs "bot2"
            ≡ payload_of dumps (stop_requested_for ds "bot2") until ∷ [])
  unfolding check_safety publish_stop_state states_of
  states_of-check_safety cfg g now =
      let (g', ds) = decide env cfg g now in
      let fresh = (rising g'.latch ds).1 in
      (
        rw (states_of-append dumps, states_of-act_all fresh g'.seq ds "bot1") refl,
        rw (states_of-append dumps, states_of-act_all fresh g'.seq ds "bot2") refl,
      )

latest-append :
    (later past : List Event) → latest later ≡ none → latest (later ++ past) ≡ latest past
latest-append [] past h = refl
latest-append (Driver.cmd_vel vx vy wz now ∷ later) past h = latest-append later past h
latest-append (Driver.stop_state payload now ∷ later) past h = absurd (cc)
latest-append (Driver.watchdog now ∷ later) past h = latest-append later past h
latest-append (Driver.shut_down ∷ later) past h = latest-append later past h

-- Does what was read last request a stop?
abbrev stops : Setup → Option (String × Float) → Bool
stops s none = false
stops s (some (payload, received)) =
    (decode_stop_state s.loads payload received s.stop_state_max_validity_s).0

-- A stop that was read last blocks every command.
stop_blocks :
    (s : Setup) (past : List Event) (now : Float)
    → s.stop_overlay_enabled ≡ true
    → stops s (latest past) ≡ true
    → permitted s past now ≡ false
stop_blocks s past now on stop = elim (Option-cases (granted s past)) [
  | inl nothing ↦ ground (arith, on, nothing)
  | inr (u, grant) ↦
      let (p, t, found, decoded, usable) = granted-latest s past grant in
      let bad : true ≡ false = sym stop ∙ ap (stops s) found ∙ ap (λ d. d.0) decoded in absurd (cc)
]

stop_is_read :
    (loads : String → Option Json) (payload : String) (until now max_validity_s : Float)
    → loads payload ≡ some (state_json true until)
    → (decode_stop_state loads payload now max_validity_s).0 ≡ true
unfolding decode_stop_state loads_no_duplicate_keys member repeats_key
stop_is_read loads payload until now max_validity_s read = rw read (ground arith)

-- A driver with the overlay on that has received the payload of a stop, and no other since, brakes.
stopped_driver :
    (s : Setup) (dumps : Json → String) (later past : List Event) (until received : Float)
    → (vx vy wz now : Float) → s.stop_overlay_enabled ≡ true
    → s.loads (payload_of dumps true until) ≡ some (state_json true until)
    → latest later ≡ none
    → let events = later ++ (Driver.stop_state (payload_of dumps true until) received ∷ past) in
      (handle s (core_after s events) (cmd_vel vx vy wz now)).1 ≡ brake ∷ []
stopped_driver s dumps later past until received vx vy wz now on round silent =
    let events = later ++ (Driver.stop_state (payload_of dumps true until) received ∷ past) in
    let last =
      latest-append later (Driver.stop_state (payload_of dumps true until) received ∷ past)
        silent in
    let stop = stop_is_read s.loads _ until received s.stop_state_max_validity_s round in
    let blocked = stop_blocks s events now on (ap (stops s) last ∙ stop) in
    handle-cmd_vel s events vx vy wz now ∙ ground (arith, blocked)

abbrev pub robot : Bool → String
robot true = "bot1"
robot false = "bot2"

states-of-twisted :
    (env : Env) (cfg : Config) (ready : String → Bool) (g : Guardian) (tick : Float)
    → (dumps : Json → String) (first : Bool)
    → let outputs = (check_safety env cfg ready g tick).1 in
      twisted outputs (robot first) ≡ true
      → states_of dumps outputs (robot first)
        ≡ payload_of dumps true (fadd tick stop_state_valid_window) ∷ []
states-of-twisted env cfg ready g tick dumps true twist =
    let stop = sym (twist_matches_feed env cfg ready g tick).0 ∙ twist in
    (states_of-check_safety dumps env ready cfg g tick).0
    ∙ ap (λ c. payload_of dumps c (fadd tick stop_state_valid_window) ∷ []) stop
states-of-twisted env cfg ready g tick dumps false twist =
    let stop = sym (twist_matches_feed env cfg ready g tick).1 ∙ twist in
    (states_of-check_safety dumps env ready cfg g tick).1
    ∙ ap (λ c. payload_of dumps c (fadd tick stop_state_valid_window) ∷ []) stop

-- When a tick of the Guardian sends a zero Twist to a robot, it publishes one stop_state payload for that
-- robot, and a driver with the overlay on that receives it answers every command with a brake until another
-- payload arrives, whatever it received before and whatever else it receives. `json.loads` is taken to read
-- back the payload that `json.dumps` wrote.
pub guardian_stop_brakes :
    (env : Env) (cfg : Config) (ready : String → Bool) (g : Guardian) (tick : Float)
    → (s : Setup) (dumps : Json → String) (later past : List Event) (received : Float)
    → (vx vy wz now : Float) (first : Bool) → s.stop_overlay_enabled ≡ true
    → (let stop = state_json true (fadd tick stop_state_valid_window) in
        s.loads (dumps stop) ≡ some stop)
    → latest later ≡ none
    → twisted (check_safety env cfg ready g tick).1 (robot first) ≡ true
    → let outputs = (check_safety env cfg ready g tick).1 in
      (payload : String) × (states_of dumps outputs (robot first) ≡ payload ∷ [])
      × ((handle s
            (core_after s (later ++ (Driver.stop_state payload received ∷ past)))
            (cmd_vel vx vy wz now)).1
          ≡ brake ∷ [])
guardian_stop_brakes env cfg ready g tick s dumps later past received vx vy wz now first on round
      silent twist =
    let until = fadd tick stop_state_valid_window in
    (
      payload_of dumps true until,
      states-of-twisted env cfg ready g tick dumps first twist,
      stopped_driver s dumps later past until received vx vy wz now on round silent,
    )
