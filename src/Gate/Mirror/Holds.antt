-- ===== src/Gate/Mirror/Holds.antt =====
-- How long the mirror holds a robot, and what the gate refuses meanwhile.
use miniature_warehouse_robo.Base.{
  ℕ, ◌≡◌, refl, ◌∙◌, ap, String, true, false, Option, none, some, List, [], ◌∷◌, ◌==◌, arith,
  is_some, if◌then◌else◌,
}
use miniature_warehouse_robo.Base.Dict
use miniature_warehouse_robo.Base.Dict.{
  Dict, has, has-add, has-discard, get-put, get-pop, get-put_self,
}
use miniature_warehouse_robo.Base.Float.{Float}
use miniature_warehouse_robo.Gate.Policy.{
  PolicyGate, FleetState, register_task_inner, register_unless, validate_and_register_dispatch,
  validate_and_register_charging, resolve_and_clear_active, resolve_and_clear_by_task_id,
  clear_owner, owner_of, validate_dispatch_inner, validate_charging,
}
use miniature_warehouse_robo.Gate.Checks.{Reason}
use miniature_warehouse_robo.Gate.Policy.Dispatch.{
  is_accepted, robot_is_available, accepts-dispatch, accepts-charging,
}
use miniature_warehouse_robo.Gate.Mirror.{
  EmergencyLevelMirror, Mirrored, new_mirror, on_stop_signal, sweep,
}
use miniature_warehouse_robo.Gate.Mirror.Sweeps.{
  expired, IsAgreed, signal-IsAgreed, sweep_items-Swept,
}

-- What happens around the gate.
pub data Event : Type 0 where
  signal : String → Float → Event
  swept : Float → Event
  dispatched : FleetState → Option String → Option String → Option String → String → Float → Event
  charged : FleetState → String → Float → Event
  cancelled : String → Event
  cancelled_id : ℕ → Event

module _ (parse_iso : String → Option Float) where
  abbrev pub receive : Mirrored → Event → Mirrored
  receive mg (signal bot now) = on_stop_signal mg bot now
  receive mg (swept now) = sweep mg now
  receive (m, g) (dispatched state robot pickup dropoff action now) =
      (m, (validate_and_register_dispatch parse_iso g state robot pickup dropoff action now).0)
  receive (m, g) (charged state robot now) =
      (m, (validate_and_register_charging parse_iso g state robot now).0)
  receive (m, g) (cancelled robot) = (m, (resolve_and_clear_active g robot).0)
  receive (m, g) (cancelled_id task_id) = (m, (resolve_and_clear_by_task_id g task_id).0)

  abbrev pub receive_all : Mirrored → List Event → Mirrored
  receive_all mg [] = mg
  receive_all mg (e ∷ es) = receive_all (receive mg e) es

-- The last time of a stop signal of the robot, unless a sweep has found it silent for too long.
pub held_since : Float → String → Option Float → List Event → Option Float
held_since window bot last [] = last
held_since window bot last (signal b now ∷ es) =
    held_since window bot (if b == bot then some now else last) es
held_since window bot last (swept now ∷ es) =
    held_since window bot (if expired window last now then none else last) es
held_since window bot last (dispatched state robot pickup dropoff action now ∷ es) =
    held_since window bot last es
held_since window bot last (charged state robot now ∷ es) = held_since window bot last es
held_since window bot last (cancelled robot ∷ es) = held_since window bot last es
held_since window bot last (cancelled_id task_id ∷ es) = held_since window bot last es

-- The calls of the gate leave the emergencies alone.
emergency-register :
    (o : Option Reason) (g : PolicyGate) (robot dropoff : Option String) (now : Float)
    → (register_unless o g robot dropoff now).0.emergency ≡ g.emergency
unfolding register_task_inner
emergency-register o g robot dropoff now = ground arith

emergency-clear : (g : PolicyGate) (o : Option String) → (clear_owner g o).0.emergency ≡ g.emergency
emergency-clear g o = ground arith

kept-IsAgreed :
    (m : EmergencyLevelMirror) (g g' : PolicyGate)
    → g'.emergency ≡ g.emergency
    → IsAgreed (m, g)
    → IsAgreed (m, g')
kept-IsAgreed m g g' e a = record {
  uniq = a.uniq;
  agreed = λ bot. ap (λ (s : List String). has s bot) e ∙ a.agreed bot;
}

-- Agreement, the entry of the robot and the window after some events.
record Follows (window : Float) (bot : String) (since : Option Float) (mg : Mirrored) : Type 0 where
  agrees : IsAgreed mg
  entry : Dict.get mg.0.last_stop bot ≡ since
  same_window : mg.0.clear_after_s ≡ window

signal-Follows :
    (window : Float) (bot b : String) (since : Option Float) (now : Float) (mg : Mirrored)
    → Follows window bot since mg
    → Follows window bot (if b == bot then some now else since) (on_stop_signal mg b now)
unfolding on_stop_signal
signal-Follows window bot b since now (m, g) f = record {
  agrees = unfold on_stop_signal in signal-IsAgreed (m, g) b now f.agrees;
  entry = ground (arith, get-put m.last_stop b bot now, f.entry);
  same_window = f.same_window;
}

sweep-Follows :
    (window : Float) (bot : String) (since : Option Float) (now : Float) (mg : Mirrored)
    → Follows window bot since mg
    → Follows window bot (if expired window since now then none else since) (sweep mg now)
unfolding sweep
sweep-Follows window bot since now (m, g) f =
    let s = sweep_items-Swept m.last_stop m g now bot f.agrees.uniq f.agrees in
    record {
      agrees = s.agrees;
      entry = s.entry ∙ rw (f.entry, f.same_window);
      same_window = s.window ∙ f.same_window;
    }

call-Follows :
    (window : Float) (bot : String) (since : Option Float) (m : EmergencyLevelMirror)
    (g g' : PolicyGate)
    → g'.emergency ≡ g.emergency
    → Follows window bot since (m, g)
    → Follows window bot since (m, g')
call-Follows window bot since m g g' e f = record {
  agrees = kept-IsAgreed m g g' e f.agrees;
  entry = f.entry;
  same_window = f.same_window;
}

module _ (parse_iso : String → Option Float) where
  receive_all-Follows :
      (window : Float) (bot : String) (since : Option Float) (mg : Mirrored) (es : List Event)
      → Follows window bot since mg
      → Follows window bot (held_since window bot since es) (receive_all parse_iso mg es)
  unfolding held_since validate_and_register_dispatch validate_and_register_charging
      resolve_and_clear_active resolve_and_clear_by_task_id
  receive_all-Follows window bot since mg [] f = f
  receive_all-Follows window bot since mg (signal b now ∷ es) f =
      receive_all-Follows window bot (if b == bot then some now else since)
        (on_stop_signal mg b now) es (signal-Follows window bot b since now mg f)
  receive_all-Follows window bot since mg (swept now ∷ es) f =
      receive_all-Follows window bot (if expired window since now then none else since)
        (sweep mg now) es (sweep-Follows window bot since now mg f)
  receive_all-Follows window bot since (m, g)
        (dispatched state robot pickup dropoff action now ∷ es) f =
      receive_all-Follows window bot since
        (m, (validate_and_register_dispatch parse_iso g state robot pickup dropoff action now).0) es
        (call-Follows window bot since m g _
          (emergency-register
            (validate_dispatch_inner parse_iso g state robot pickup dropoff action now) g robot
            dropoff now)
          f)
  receive_all-Follows window bot since (m, g) (charged state robot now ∷ es) f =
      receive_all-Follows window bot since
        (m, (validate_and_register_charging parse_iso g state robot now).0) es
        (call-Follows window bot since m g _
          (emergency-register (validate_charging parse_iso g state robot now) g (some robot)
            (some "charging_station") now)
          f)
  receive_all-Follows window bot since (m, g) (cancelled robot ∷ es) f =
      receive_all-Follows window bot since (m, (resolve_and_clear_active g robot).0) es
        (call-Follows window bot since m g _ refl f)
  receive_all-Follows window bot since (m, g) (cancelled_id task_id ∷ es) f =
      receive_all-Follows window bot since (m, (resolve_and_clear_by_task_id g task_id).0) es
        (call-Follows window bot since m g _ (emergency-clear g (owner_of g.active_tasks task_id))
          f)

  -- From a new mirror over a gate that holds no emergency, after any signals, sweeps and calls of the
  -- gate: the gate holds a robot exactly if a stop signal of it has come and no sweep since its last
  -- signal has found it silent for longer than the window.
  pub held-eq-held_since :
      (window : Float) (g : PolicyGate) (es : List Event) (bot : String)
      → g.emergency ≡ []
      → has (receive_all parse_iso (new_mirror window, g) es).1.emergency bot
        ≡ is_some (held_since window bot none es)
  unfolding new_mirror
  held-eq-held_since window g es bot none_held =
      let start : Follows window bot none (new_mirror window, g) = record {
        agrees = record { uniq = tt; agreed = λ b. rw none_held (unfold has Dict.get in refl) };
        entry = unfold Dict.get in refl;
        same_window = refl;
      } in
      let f = receive_all-Follows window bot none (new_mirror window, g) es start in
      f.agrees.agreed bot ∙ ap (λ (o : Option Float). is_some o) f.entry

not_available :
    (parse_iso : String → Option Float) (g : PolicyGate) (state : FleetState) (bot : String)
    (now : Float)
    → has g.emergency bot ≡ true
    → robot_is_available parse_iso g state bot now ≡ false
unfolding robot_is_available
not_available parse_iso g state bot now h = ground (arith, h)

-- A robot that the gate holds in emergency gets no dispatch and no charging request accepted, whatever
-- the request, the fleet state and the time.
pub held_gets_nothing :
    (parse_iso : String → Option Float) (g : PolicyGate) (state : FleetState) (bot : String)
    (pickup dropoff : Option String) (action : String) (now : Float)
    → has g.emergency bot ≡ true
    → (is_accepted
          (validate_and_register_dispatch parse_iso g state (some bot) pickup dropoff action now).1
        ≡ false)
      × (is_accepted (validate_and_register_charging parse_iso g state bot now).1 ≡ false)
held_gets_nothing parse_iso g state bot pickup dropoff action now h = (
  rw (accepts-dispatch, not_available parse_iso g state bot now h) (ground arith),
  rw (accepts-charging, not_available parse_iso g state bot now h) (ground arith),
)
