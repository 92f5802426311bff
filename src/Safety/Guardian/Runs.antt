-- ===== src/Safety/Guardian/Runs.antt =====
-- The node over any sequence of inputs.
use miniature_warehouse_robo.Base.{
  ◌≡◌, refl, ◌∙◌, ap, String, Bool, true, not, ◌||◌, none, some, List, [], ◌∷◌, ◌==◌, eq_iff, arith,
  all, Option-cases, inl, inr,
}
use miniature_warehouse_robo.Base.Dict
use miniature_warehouse_robo.Base.Dict.{get-put}
use miniature_warehouse_robo.Base.Float.{Float}
use miniature_warehouse_robo.Safety.Limits.{normalize_battery_percent}
use miniature_warehouse_robo.Safety.Guard.{BotState, Thresholds, stop_requested_for, battery_is_low}
use miniature_warehouse_robo.Safety.Guard.Stops.{
  battery_is_low-fault, own_fault, stop_requested-evaluate,
}
use miniature_warehouse_robo.Safety.Latches.{engage, OperatorStopLatch}
use miniature_warehouse_robo.Safety.Latches.Operator.{
  feed_all, last_action, state_after, engaged-feed_all,
}
use miniature_warehouse_robo.Safety.Guardian.{
  Env, Config, Guardian, handle_pose, handle_odom, handle_scan, handle_terrain_coverage,
  marshal_battery, handle_battery, handle_operator_stop, judge, bot_state, decide, check_safety,
}
use miniature_warehouse_robo.Safety.Guardian.Publish.{twisted, twist_matches_feed, decide-keeps}

pub data Input : Type 0 where
  pose : String → Float → Float → Float → Input
  odom : String → Float → Float → Float → Float → Input
  scan : String → Float → Input
  coverage : String → String → Float → Input
  battery : String → Float → Input
  operator : String → Input
  tick : (String → Bool) → Float → Input

-- The node after one input; the outputs of a tick are not kept here.
abbrev pub receive : Env → Config → Guardian → Input → Guardian
receive env cfg g (pose bot x y now) = handle_pose env g bot x y now
receive env cfg g (odom bot x y yaw now) = handle_odom env g bot x y yaw now
receive env cfg g (scan bot now) = handle_scan g bot now
receive env cfg g (coverage bot payload now) = handle_terrain_coverage env g bot payload now
receive env cfg g (battery bot raw) = handle_battery cfg g bot raw
receive env cfg g (operator raw) = handle_operator_stop env g raw
receive env cfg g (tick ready now) = (check_safety env cfg ready g now).0

abbrev pub receive_all : Env → Config → Guardian → List Input → Guardian
receive_all env cfg g [] = g
receive_all env cfg g (i ∷ is) = receive_all env cfg (receive env cfg g i) is

-- The operator's payloads among the inputs.
abbrev payload_of : Input → List String → List String
payload_of (operator raw) rest = raw ∷ rest
payload_of (pose bot x y now) rest = rest
payload_of (odom bot x y yaw now) rest = rest
payload_of (scan bot now) rest = rest
payload_of (coverage bot payload now) rest = rest
payload_of (battery bot raw) rest = rest
payload_of (tick ready now) rest = rest

abbrev pub payloads : List Input → List String
payloads [] = []
payloads (i ∷ is) = payload_of i (payloads is)

op_latch-coverage :
    (env : Env) (g : Guardian) (bot payload : String) (now : Float)
    → (handle_terrain_coverage env g bot payload now).op_latch ≡ g.op_latch
unfolding handle_terrain_coverage
op_latch-coverage env g bot payload now = ground arith

op_latch-battery :
    (cfg : Config) (g : Guardian) (bot : String) (raw : Float)
    → (handle_battery cfg g bot raw).op_latch ≡ g.op_latch
unfolding handle_battery
op_latch-battery cfg g bot raw = ground arith

op_latch-tick :
    (env : Env) (cfg : Config) (ready : String → Bool) (g : Guardian) (now : Float)
    → (check_safety env cfg ready g now).0.op_latch ≡ g.op_latch
unfolding check_safety
op_latch-tick env cfg ready g now = (decide-keeps env cfg g now).2

-- Only the operator's payloads move the latch.
op_latch-receive_all :
    (env : Env) (cfg : Config) (g : Guardian) (is : List Input)
    → (receive_all env cfg g is).op_latch ≡ feed_all env.loads g.op_latch (payloads is)
op_latch-receive_all env cfg g [] = refl
op_latch-receive_all env cfg g (operator raw ∷ is) =
    op_latch-receive_all env cfg (handle_operator_stop env g raw) is
    ∙ unfold handle_operator_stop in refl
op_latch-receive_all env cfg g (coverage bot payload now ∷ is) =
    op_latch-receive_all env cfg (handle_terrain_coverage env g bot payload now) is
    ∙ rw op_latch-coverage
op_latch-receive_all env cfg g (battery bot raw ∷ is) =
    op_latch-receive_all env cfg (handle_battery cfg g bot raw) is ∙ rw op_latch-battery
op_latch-receive_all env cfg g (tick ready now ∷ is) =
    op_latch-receive_all env cfg (check_safety env cfg ready g now).0 is ∙ rw op_latch-tick
op_latch-receive_all env cfg g (pose bot x y now ∷ is) =
    op_latch-receive_all env cfg (handle_pose env g bot x y now) is ∙ unfold handle_pose in refl
op_latch-receive_all env cfg g (odom bot x y yaw now ∷ is) =
    op_latch-receive_all env cfg (handle_odom env g bot x y yaw now) is ∙ unfold handle_odom in refl
op_latch-receive_all env cfg g (scan bot now ∷ is) =
    op_latch-receive_all env cfg (handle_scan g bot now) is ∙ unfold handle_scan in refl

-- The state of a robot shows the operator's latch and its battery.
bot_state-shows :
    (cfg : Config) (g : Guardian) (bot : String) (now : Float)
    → ((bot_state cfg g bot now).1.bot ≡ bot)
      × ((bot_state cfg g bot now).1.operator_stop_requested ≡ g.op_latch.engaged)
      × ((bot_state cfg g bot now).1.battery_pct ≡ Dict.get g.battery bot)
unfolding bot_state
bot_state-shows cfg g bot now = (refl, refl, refl)

judged :
    (cfg : Config) (g : Guardian) (bot : String) (now : Float)
    → ((bot_state cfg g bot now).0.op_latch ≡ g.op_latch)
      × ((bot_state cfg g bot now).0.battery ≡ g.battery)
unfolding bot_state judge
judged cfg g bot now = (ground arith, ground arith)

-- A fault of either robot's own stops that robot.
own_fault_stops :
    (env : Env) (cfg : Config) (g : Guardian) (now : Float)
    → let a = (bot_state cfg g "bot1" now).1 in
      let b = (bot_state cfg (bot_state cfg g "bot1" now).0 "bot2" now).1 in
      (own_fault cfg.thresholds a ≡ true
        → stop_requested_for (decide env cfg g now).1 "bot1" ≡ true)
      × (own_fault cfg.thresholds b ≡ true
          → stop_requested_for (decide env cfg g now).1 "bot2" ≡ true)
unfolding decide
own_fault_stops env cfg g now =
    let (g', a) = bot_state cfg g "bot1" now in
    let b = (bot_state cfg g' "bot2" now).1 in
    let p = (bot_state-shows cfg g "bot1" now).0 in
    let q = (bot_state-shows cfg g' "bot2" now).0 in
    (
      λ h. rw (stop_requested-evaluate, h, p) (ground arith),
      λ h. rw (stop_requested-evaluate, h, q) (ground arith),
    )

operator_faults :
    (t : Thresholds) (b : BotState) → b.operator_stop_requested ≡ true → own_fault t b ≡ true
unfolding own_fault
operator_faults t b h = ground arith

battery_faults :
    (t : Thresholds) (b : BotState) → battery_is_low b.battery_pct ≡ true → own_fault t b ≡ true
unfolding own_fault
battery_faults t b h = ground (arith, battery_is_low-fault b.battery_pct)

-- From any state and after any inputs: if the last recognised operator payload is an engage, the next
-- tick sends a zero Twist to both robots, whatever the sensors and the other callbacks did.
pub engage_stops_fleet :
    (env : Env) (cfg : Config) (ready : String → Bool) (g : Guardian) (is : List Input)
    (now : Float)
    → last_action env.loads (payloads is) ≡ some engage
    → (twisted (check_safety env cfg ready (receive_all env cfg g is) now).1 "bot1" ≡ true)
      × (twisted (check_safety env cfg ready (receive_all env cfg g is) now).1 "bot2" ≡ true)
engage_stops_fleet env cfg ready g is now h =
    let g' = receive_all env cfg g is in
    let on : g'.op_latch.engaged ≡ true =
      ap (λ (l : OperatorStopLatch). l.engaged) (op_latch-receive_all env cfg g is)
      ∙ engaged-feed_all env.loads g.op_latch (payloads is)
      ∙ ap (state_after g.op_latch.engaged) h in
    let m = twist_matches_feed env cfg ready g' now in
    let g'' = (bot_state cfg g' "bot1" now).0 in
    let stops = own_fault_stops env cfg g' now in
    let a = (bot_state cfg g' "bot1" now).1 in
    let b = (bot_state cfg g'' "bot2" now).1 in
    let later : g''.op_latch.engaged ≡ true =
      ap (λ (l : OperatorStopLatch). l.engaged) (judged cfg g' "bot1" now).0 ∙ on in
    (
      m.0 ∙ stops.0 (operator_faults cfg.thresholds a ((bot_state-shows cfg g' "bot1" now).1 ∙ on)),
      m.1
          ∙ stops.1
              (operator_faults cfg.thresholds b ((bot_state-shows cfg g'' "bot2" now).1 ∙ later)),
    )

-- An input after which a critical battery of the robot is still critical: no reading of that robot
-- that is finite and above the critical percentage.
abbrev pub stays_low : Config → String → Input → Bool
stays_low cfg bot (battery b raw) =
    not (b == bot) || elim (normalize_battery_percent raw cfg.battery_scale) [
      | none ↦ true
      | some pct ↦ battery_is_low (some pct)
    ]
stays_low cfg bot (pose b x y now) = true
stays_low cfg bot (odom b x y yaw now) = true
stays_low cfg bot (scan b now) = true
stays_low cfg bot (coverage b payload now) = true
stays_low cfg bot (operator raw) = true
stays_low cfg bot (tick ready now) = true

battery-coverage :
    (env : Env) (g : Guardian) (bot payload : String) (now : Float)
    → (handle_terrain_coverage env g bot payload now).battery ≡ g.battery
unfolding handle_terrain_coverage
battery-coverage env g bot payload now = ground arith

battery-tick :
    (env : Env) (cfg : Config) (ready : String → Bool) (g : Guardian) (now : Float)
    → (check_safety env cfg ready g now).0.battery ≡ g.battery
unfolding check_safety
battery-tick env cfg ready g now = (decide-keeps env cfg g now).3

battery-low :
    (cfg : Config) (g : Guardian) (bot b : String) (raw : Float)
    → stays_low cfg bot (battery b raw) ≡ true
    → battery_is_low (Dict.get g.battery bot) ≡ true
    → battery_is_low (Dict.get (handle_battery cfg g b raw).battery bot) ≡ true
unfolding handle_battery marshal_battery
battery-low cfg g bot b raw h low =
    elim (Option-cases (normalize_battery_percent raw cfg.battery_scale)) [
      | inl refused ↦ elim (Option-cases (Dict.get g.battery b)) [
        | inl unknown ↦ ground arith
        | inr (p, last) ↦ ground (arith, get-put g.battery b bot p, eq_iff b bot)
      ]
      | inr (p, read) ↦ ground (arith, get-put g.battery b bot p)
    ]

receive-low :
    (env : Env) (cfg : Config) (g : Guardian) (bot : String) (i : Input)
    → stays_low cfg bot i ≡ true
    → battery_is_low (Dict.get g.battery bot) ≡ true
    → battery_is_low (Dict.get (receive env cfg g i).battery bot) ≡ true
receive-low env cfg g bot (battery b raw) h low = battery-low cfg g bot b raw h low
receive-low env cfg g bot (pose b x y now) h low = unfold handle_pose in low
receive-low env cfg g bot (odom b x y yaw now) h low = unfold handle_odom in low
receive-low env cfg g bot (scan b now) h low = unfold handle_scan in low
receive-low env cfg g bot (coverage b payload now) h low = rw battery-coverage low
receive-low env cfg g bot (operator raw) h low = unfold handle_operator_stop in low
receive-low env cfg g bot (tick ready now) h low = rw battery-tick low

receive_all-low :
    (env : Env) (cfg : Config) (g : Guardian) (bot : String) (is : List Input)
    → all (stays_low cfg bot) is ≡ true
    → battery_is_low (Dict.get g.battery bot) ≡ true
    → battery_is_low (Dict.get (receive_all env cfg g is).battery bot) ≡ true
unfolding all
receive_all-low env cfg g bot [] h low = low
receive_all-low env cfg g bot (i ∷ is) h low =
    receive_all-low env cfg (receive env cfg g i) bot is (ground arith)
      (receive-low env cfg g bot i (ground arith) low)

-- Once the battery of bot1 has been critical, every tick sends bot1 a zero Twist until a finite
-- reading above the critical percentage arrives: readings that are not finite do not release it.
pub critical_battery_holds :
    (env : Env) (cfg : Config) (ready : String → Bool) (g : Guardian) (is : List Input)
    (now : Float)
    → battery_is_low (Dict.get g.battery "bot1") ≡ true
    → all (stays_low cfg "bot1") is ≡ true
    → twisted (check_safety env cfg ready (receive_all env cfg g is) now).1 "bot1" ≡ true
critical_battery_holds env cfg ready g is now low h =
    let g' = receive_all env cfg g is in
    let still = receive_all-low env cfg g "bot1" is h low in
    let a = (bot_state cfg g' "bot1" now).1 in
    (twist_matches_feed env cfg ready g' now).0
    ∙ (own_fault_stops env cfg g' now).0 (
        battery_faults cfg.thresholds a
          (ap battery_is_low (bot_state-shows cfg g' "bot1" now).2 ∙ still))
