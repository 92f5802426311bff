-- ===== src/Safety/Guardian/Publish.antt =====
-- What one tick of the node sends.
use miniature_warehouse_robo.Base.{
  ℕ, suc, ◌+◌, ◌≡◌, refl, ◌∙◌, String, Bool, false, not, ◌&&◌, List, [], ◌∷◌, ◌++◌, ◌==◌, arith,
  any, any-append, Bool-cases, inl, inr, if◌then◌else◌, or-false,
}
use miniature_warehouse_robo.Base.Float.{Float}
use miniature_warehouse_robo.Safety.Guard.{
  Action, estop, recovery, Decision, is_estop, stop_requested_for,
}
use miniature_warehouse_robo.Safety.Latches.{Key, same_key, holds, keys_of, rising}
use miniature_warehouse_robo.Safety.Latches.Edges.{holds-rising, same_key-eq}
use miniature_warehouse_robo.Safety.Guardian.{
  Env, Config, Guardian, Output, cancel_goals, zero_twist, event, abort, stop_state, publish_event,
  act, act_all, publish_stop_state, judge, bot_state, decide, check_safety,
}

-- Is a zero Twist for the robot among the outputs?
abbrev is_twist : String → Output → Bool
is_twist bot (zero_twist b) = b == bot
is_twist bot (cancel_goals b) = false
is_twist bot (event e) = false
is_twist bot (abort r b i) = false
is_twist bot (stop_state b f u) = false

pub twisted : List Output → String → Bool
twisted outputs bot = any (is_twist bot) outputs

-- Does the stop feed of the outputs ask for a stop of the robot?
abbrev is_flag : String → Output → Bool
is_flag bot (stop_state b f u) = b == bot && f
is_flag bot (zero_twist b) = false
is_flag bot (cancel_goals b) = false
is_flag bot (event e) = false
is_flag bot (abort r b i) = false

pub flagged : List Output → String → Bool
flagged outputs bot = any (is_flag bot) outputs

abbrev is_event : Key → Output → Bool
is_event k (event e) = same_key (e.robot, e.reason) k
is_event k (zero_twist b) = false
is_event k (cancel_goals b) = false
is_event k (abort r b i) = false
is_event k (stop_state b f u) = false

-- Is an event for the robot and the reason among the outputs?
pub published : List Output → Key → Bool
published outputs k = any (is_event k) outputs

-- How many events the outputs hold.
pub events : List Output → ℕ
events [] = 0
events (event e ∷ os) = suc (events os)
events (zero_twist b ∷ os) = events os
events (cancel_goals b ∷ os) = events os
events (abort r b i ∷ os) = events os
events (stop_state b f u ∷ os) = events os

events-append : (xs ys : List Output) → events (xs ++ ys) ≡ events xs + events ys
unfolding events
events-append [] ys = omega arith
events-append (event e ∷ xs) ys = omega (arith, events-append xs ys)
events-append (zero_twist b ∷ xs) ys = events-append xs ys
events-append (cancel_goals b ∷ xs) ys = events-append xs ys
events-append (abort r b i ∷ xs) ys = events-append xs ys
events-append (stop_state b f u ∷ xs) ys = events-append xs ys

-- Judging the monitors changes nothing but the monitors.
judge-keeps :
    (g : Guardian) (bot : String) (now : Float)
    → ((judge g bot now).0.latch ≡ g.latch)
      × ((judge g bot now).0.seq ≡ g.seq)
      × ((judge g bot now).0.op_latch ≡ g.op_latch)
      × ((judge g bot now).0.battery ≡ g.battery)
unfolding judge
judge-keeps g bot now = (ground arith, ground arith, ground arith, ground arith)

pub decide-keeps :
    (env : Env) (cfg : Config) (g : Guardian) (now : Float)
    → ((decide env cfg g now).0.latch ≡ g.latch)
      × ((decide env cfg g now).0.seq ≡ g.seq)
      × ((decide env cfg g now).0.op_latch ≡ g.op_latch)
      × ((decide env cfg g now).0.battery ≡ g.battery)
unfolding decide bot_state
decide-keeps env cfg g now =
    let g' = (judge g "bot1" now).0 in
    let a = judge-keeps g "bot1" now in
    let b = judge-keeps g' "bot2" now in (b.0 ∙ a.0, b.1 ∙ a.1, b.2 ∙ a.2, b.3 ∙ a.3)

module _ (env : Env) (ready : String → Bool) where
  twisted-act :
      (n : ℕ) (d : Decision) (a : Action) (emit : Bool) (bot : String)
      → any (is_twist bot) (act env ready n d a emit) ≡ (d.bot == bot && is_estop a)
  unfolding any publish_event
  twisted-act n d estop emit bot = ground arith
  twisted-act n d recovery emit bot = ground arith

  twisted-act_all :
      (fresh : List Key) (seq : ℕ) (ds : List Decision) (bot : String)
      → any (is_twist bot) (act_all env ready fresh seq ds).1 ≡ stop_requested_for ds bot
  unfolding act_all stop_requested_for
  twisted-act_all fresh seq [] bot = refl
  twisted-act_all fresh seq (d ∷ ds) bot =
      let emit = holds fresh (d.bot, d.reason) in
      let seq' = if emit then suc seq else seq in
      rw (
        any-append (is_twist bot),
        twisted-act seq' d d.action emit bot,
        twisted-act_all fresh seq' ds bot,
      )

  flagged-act :
      (n : ℕ) (d : Decision) (a : Action) (emit : Bool) (bot : String)
      → any (is_flag bot) (act env ready n d a emit) ≡ false
  unfolding any publish_event
  flagged-act n d estop emit bot = ground arith
  flagged-act n d recovery emit bot = ground arith

  flagged-act_all :
      (fresh : List Key) (seq : ℕ) (ds : List Decision) (bot : String)
      → any (is_flag bot) (act_all env ready fresh seq ds).1 ≡ false
  unfolding act_all any
  flagged-act_all fresh seq [] bot = refl
  flagged-act_all fresh seq (d ∷ ds) bot =
      let emit = holds fresh (d.bot, d.reason) in
      let seq' = if emit then suc seq else seq in
      rw (
        any-append (is_flag bot),
        flagged-act seq' d d.action emit bot,
        flagged-act_all fresh seq' ds bot,
      )

  published-act :
      (n : ℕ) (d : Decision) (a : Action) (emit : Bool) (k : Key)
      → any (is_event k) (act env ready n d a emit) ≡ (same_key (d.bot, d.reason) k && emit)
  unfolding any publish_event
  published-act n d estop emit k = ground arith
  published-act n d recovery emit k = ground arith

  published-act_all :
      (fresh : List Key) (seq : ℕ) (ds : List Decision) (k : Key)
      → any (is_event k) (act_all env ready fresh seq ds).1
        ≡ (holds (keys_of ds) k && holds fresh k)
  unfolding act_all any holds
  published-act_all fresh seq [] k = refl
  published-act_all fresh seq (d ∷ ds) k =
      let emit = holds fresh (d.bot, d.reason) in
      let seq' = if emit then suc seq else seq in
      rw
        (
          any-append (is_event k),
          published-act seq' d d.action emit k,
          published-act_all fresh seq' ds k,
        )
        (elim (Bool-cases (same_key (d.bot, d.reason) k)) [
          | inl same ↦ ground (arith, same_key-eq (d.bot, d.reason) k same)
          | inr other ↦ ground arith
        ])

  events-act :
      (n : ℕ) (d : Decision) (a : Action) (emit : Bool)
      → events (act env ready n d a emit) ≡ (if emit then 1 else 0)
  unfolding events publish_event
  events-act n d estop emit = ground arith
  events-act n d recovery emit = ground arith

  events-act_all :
      (fresh : List Key) (seq : ℕ) (ds : List Decision)
      → (act_all env ready fresh seq ds).0 ≡ events (act_all env ready fresh seq ds).1 + seq
  unfolding act_all
  events-act_all fresh seq [] = unfold events in omega arith
  events-act_all fresh seq (d ∷ ds) =
      let emit = holds fresh (d.bot, d.reason) in
      let seq' = if emit then suc seq else seq in
      rw (events-append, events-act seq' d d.action emit, events-act_all fresh seq' ds)
        (ground arith)

-- In every tick, for each of the two robots: a zero Twist is sent exactly if the robot's stop feed of
-- the same tick asks for a stop, and exactly if a decision of the tick stops it.
pub twist_matches_feed :
    (env : Env) (cfg : Config) (ready : String → Bool) (g : Guardian) (now : Float)
    → let outputs = (check_safety env cfg ready g now).1 in
      let decisions = (decide env cfg g now).1 in
      (twisted outputs "bot1" ≡ stop_requested_for decisions "bot1")
      × (twisted outputs "bot2" ≡ stop_requested_for decisions "bot2")
      × (flagged outputs "bot1" ≡ stop_requested_for decisions "bot1")
      × (flagged outputs "bot2" ≡ stop_requested_for decisions "bot2")
unfolding check_safety twisted flagged publish_stop_state any
twist_matches_feed env cfg ready g now =
    let (g', ds) = decide env cfg g now in
    let fresh = (rising g'.latch ds).1 in
    (
      rw (any-append (is_twist "bot1"), twisted-act_all env ready fresh g'.seq ds "bot1")
          (or-false _),
      rw (any-append (is_twist "bot2"), twisted-act_all env ready fresh g'.seq ds "bot2")
          (or-false _),
      rw (any-append (is_flag "bot1"), flagged-act_all env ready fresh g'.seq ds "bot1")
          (or-false _),
      rw (any-append (is_flag "bot2"), flagged-act_all env ready fresh g'.seq ds "bot2")
          (or-false _),
    )

-- A tick publishes an event for a robot and a reason exactly if the tick has such a decision and the latch
-- does not hold the two, and it raises the event number by one for each event.
pub published-check_safety :
    (env : Env) (cfg : Config) (ready : String → Bool) (g : Guardian) (now : Float) (k : Key)
    → (published (check_safety env cfg ready g now).1 k
        ≡ (holds (keys_of (decide env cfg g now).1) k && not (holds g.latch.active k)))
      × ((check_safety env cfg ready g now).0.seq
          ≡ events (check_safety env cfg ready g now).1 + g.seq)
unfolding check_safety published publish_stop_state
published-check_safety env cfg ready g now k =
    let (g', ds) = decide env cfg g now in
    let fresh = (rising g'.latch ds).1 in
    let kept = decide-keeps env cfg g now in
    (
      rw (any-append (is_event k), published-act_all env ready fresh g'.seq ds k, holds-rising)
          (unfold any in ground (arith, kept.0)),
      rw (events-append, events-act_all env ready fresh g'.seq ds, kept.1)
          (unfold events in omega arith),
    )
