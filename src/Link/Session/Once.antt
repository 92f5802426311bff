-- ===== src/Link/Session/Once.antt =====
-- Messages over the life of a session guard: none is admitted twice, and none outlives its session.
use miniature_warehouse_robo.Base.{
  ℕ, ◌≤◌, ◌<◌, ◌≡◌, Bool, true, false, not, Option, none, some, List, [], ◌∷◌, ◌&&◌, ◌||◌, arith,
  leb, eqb,
}
use miniature_warehouse_robo.Base.Float.{Float}
use miniature_warehouse_robo.Link.Session.{
  ControlMessage, SessionGuard, new_session_guard, is_replay, admits, admitted, accept,
  take_pending_teleop, reconnect, replay_teleop,
}

-- What the owner of the guard does.
pub data Input : Type 0 where
  message : Option ControlMessage → Float → Float → Input
  take : Input
  connect : ℕ → Input

abbrev kept : SessionGuard → Option (SessionGuard × ℕ) → SessionGuard
kept g none = g
kept g (some (g', n)) = g'

-- A refused epoch raises, and leaves the guard as it is.
abbrev pub receive : SessionGuard → Input → SessionGuard
receive g (message msg now_wall now_mono) = (accept g msg now_wall now_mono).0
receive g take = (take_pending_teleop g).0
receive g (connect epoch) = kept g (reconnect g epoch)

abbrev pub receive_all : SessionGuard → List Input → SessionGuard
receive_all g [] = g
receive_all g (i ∷ is) = receive_all (receive g i) is

-- The message belongs to an older session, or its number is not above the last one.
abbrev spent : SessionGuard → ControlMessage → Bool
spent g msg =
    not (leb g.session_epoch msg.session_epoch)
    || (eqb msg.session_epoch g.session_epoch && is_replay g.last_sequence msg.sequence)

spent-accept :
    (g : SessionGuard) (msg : ControlMessage) (o : Option ControlMessage)
    (now_wall now_mono : Float)
    → spent g msg ≡ true
    → spent (accept g o now_wall now_mono).0 msg ≡ true
unfolding accept admits admitted
spent-accept g msg none now_wall now_mono h = h
spent-accept g msg (some m) now_wall now_mono h = ground arith

spent-receive :
    (g : SessionGuard) (msg : ControlMessage) (i : Input)
    → spent g msg ≡ true
    → spent (receive g i) msg ≡ true
unfolding take_pending_teleop reconnect
spent-receive g msg (message o now_wall now_mono) h = spent-accept g msg o now_wall now_mono h
spent-receive g msg take h = ground arith
spent-receive g msg (connect epoch) h = ground arith

spent-receive_all :
    (g : SessionGuard) (msg : ControlMessage) (is : List Input)
    → spent g msg ≡ true
    → spent (receive_all g is) msg ≡ true
spent-receive_all g msg [] h = h
spent-receive_all g msg (i ∷ is) h =
    spent-receive_all (receive g i) msg is (spent-receive g msg i h)

accepted-spent :
    (g : SessionGuard) (msg : ControlMessage) (now_wall now_mono : Float)
    → (accept g (some msg) now_wall now_mono).1 ≡ true
    → spent (accept g (some msg) now_wall now_mono).0 msg ≡ true
unfolding accept admits admitted
accepted-spent g msg now_wall now_mono h = ground arith

spent-refused :
    (g : SessionGuard) (msg : ControlMessage) (now_wall now_mono : Float)
    → spent g msg ≡ true
    → (accept g (some msg) now_wall now_mono).1 ≡ false
unfolding accept admits
spent-refused g msg now_wall now_mono h = ground arith

-- A message that a guard has accepted is refused whenever it comes again, at whatever clocks, after
-- any other messages, samples taken and new sessions.
pub accepted_once :
    (g : SessionGuard) (msg : ControlMessage) (is : List Input)
    (now_wall now_mono later_wall later_mono : Float)
    → (accept g (some msg) now_wall now_mono).1 ≡ true
    → (accept
        (receive_all (accept g (some msg) now_wall now_mono).0 is)
        (some msg)
        later_wall
        later_mono).1
      ≡ false
accepted_once g msg is now_wall now_mono later_wall later_mono h =
    let g' = (accept g (some msg) now_wall now_mono).0 in
    spent-refused (receive_all g' is) msg later_wall later_mono
      (spent-receive_all g' msg is (accepted-spent g msg now_wall now_mono h))

-- The waiting sample, if there is one, is of no later session than the guard's.
abbrev pending_is_known : SessionGuard → Bool
pending_is_known g = elim g.pending_teleop [
  | none ↦ true
  | some msg ↦ leb msg.session_epoch g.session_epoch
]

known-receive :
    (g : SessionGuard) (i : Input)
    → pending_is_known g ≡ true
    → pending_is_known (receive g i) ≡ true
unfolding accept admits admitted take_pending_teleop reconnect
known-receive g (message none now_wall now_mono) h = h
known-receive g (message (some msg) now_wall now_mono) h = ground arith
known-receive g take h = ground arith
known-receive g (connect epoch) h = ground arith

known-receive_all :
    (g : SessionGuard) (is : List Input)
    → pending_is_known g ≡ true
    → pending_is_known (receive_all g is) ≡ true
known-receive_all g [] h = h
known-receive_all g (i ∷ is) h = known-receive_all (receive g i) is (known-receive g i h)

new-known :
    (epoch : ℕ) (skew valid_for : Float) {g : SessionGuard}
    → new_session_guard epoch skew valid_for ≡ some g
    → pending_is_known g ≡ true
unfolding new_session_guard
new-known epoch skew valid_for h = ground arith

taken-known :
    (g : SessionGuard) (msg : ControlMessage) (received : Float)
    → pending_is_known g ≡ true
    → (take_pending_teleop g).1 ≡ some (msg, received)
    → (msg.session_epoch ≤ g.session_epoch)
      × ((take_pending_teleop g).0.session_epoch ≡ g.session_epoch)
unfolding take_pending_teleop
taken-known g msg received h e = (ground arith, ground arith)

reconnect-later :
    (g g' : SessionGuard) (epoch n : ℕ)
    → reconnect g epoch ≡ some (g', n)
    → g.session_epoch < g'.session_epoch
unfolding reconnect
reconnect-later g g' epoch n h = ground arith

epoch-receive : (g : SessionGuard) (i : Input) → g.session_epoch ≤ (receive g i).session_epoch
unfolding accept admits admitted take_pending_teleop reconnect
epoch-receive g (message none now_wall now_mono) = omega arith
epoch-receive g (message (some msg) now_wall now_mono) = ground arith
epoch-receive g take = ground arith
epoch-receive g (connect epoch) = ground arith

epoch-receive_all :
    (g : SessionGuard) (is : List Input) → g.session_epoch ≤ (receive_all g is).session_epoch
epoch-receive_all g [] = omega arith
epoch-receive_all g (i ∷ is) = omega (arith, epoch-receive g i, epoch-receive_all (receive g i) is)

replay-older :
    (msg : ControlMessage) (now received timeout : Float) (epoch : ℕ) (axes buttons : Option ℕ)
    → msg.session_epoch < epoch
    → replay_teleop (some msg) now received timeout epoch axes buttons ≡ none
unfolding replay_teleop
replay-older msg now received timeout epoch axes buttons h = ground arith

-- From a new guard, after any inputs: a sample that was taken before a reconnect is replayed at no
-- time after it, whatever follows, with whatever clocks, timeout and expected layout.
pub old_session_not_replayed :
    (epoch : ℕ) (skew valid_for : Float) {g : SessionGuard} (is js : List Input)
    (msg : ControlMessage) (received : Float) (new_epoch n : ℕ) (g' : SessionGuard)
    (now received' timeout : Float) (axes buttons : Option ℕ)
    → new_session_guard epoch skew valid_for ≡ some g
    → (take_pending_teleop (receive_all g is)).1 ≡ some (msg, received)
    → reconnect (take_pending_teleop (receive_all g is)).0 new_epoch ≡ some (g', n)
    → replay_teleop (some msg) now received' timeout (receive_all g' js).session_epoch axes buttons
      ≡ none
old_session_not_replayed epoch skew valid_for {g} is js msg received new_epoch n g' now received'
      timeout axes buttons start taken later =
    let g1 = receive_all g is in
    let k =
      taken-known g1 msg received (known-receive_all g is (new-known epoch skew valid_for start))
        taken in
    let l = reconnect-later (take_pending_teleop g1).0 g' new_epoch n later in
    replay-older msg now received' timeout (receive_all g' js).session_epoch axes buttons
      (omega (arith, k.0, k.1, l, epoch-receive_all g' js))
