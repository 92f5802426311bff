-- ===== src/Link/Watchdog/Latch.antt =====
-- The link-loss latch, and the frames that the video channel drops.
use miniature_warehouse_robo.Base.{
  ◌≡◌, refl, Bool, true, false, not, Option, none, some, List, [], ◌∷◌, ◌++◌, ◌∙◌, sym, ap, ◌&&◌,
  ◌||◌, arith, if◌then◌else◌, Bool-cases, inl, inr,
}
use miniature_warehouse_robo.Base.Float.{
  Float, is_finite, fle, fsub, fzero, not-flt, is_finite-fsub,
}
use miniature_warehouse_robo.Link.Session.{require_finite}
use miniature_warehouse_robo.Link.Watchdog.{
  LinkWatchdog, new_watchdog, observe_heartbeat, age, is_fresh, evaluate, rearm, reason_link_loss,
  engage_payload, stop_request_payload, link_is_lost,
}

pub data Input : Type 0 where
  heartbeat : Float → Input
  tick : Float → Input
  rearmed : Float → Input

abbrev pub receive : LinkWatchdog → Input → LinkWatchdog
receive w (heartbeat now) = (observe_heartbeat w now).0
receive w (tick now) = (evaluate w now).0
receive w (rearmed now) = (rearm w now).0

abbrev pub receive_all : LinkWatchdog → List Input → LinkWatchdog
receive_all w [] = w
receive_all w (i ∷ is) = receive_all (receive w i) is

-- Is a heartbeat of an age from 0 to the timeout there?
abbrev recent : Float → Option Float → Float → Bool
recent timeout none now = false
recent timeout (some last) now =
    is_finite now && (fle fzero (fsub now last) && fle (fsub now last) timeout)

-- Is the stop engaged after the inputs? It starts engaged; a tick engages it when no heartbeat of an age
-- from 0 to the timeout is there, and a rearm releases it when there is one.
unfoldable pub engaged_after : Float → Bool → Option Float → List Input → Bool
engaged_after timeout engaged last [] = engaged
engaged_after timeout engaged last (heartbeat now ∷ is) =
    engaged_after timeout engaged (if is_finite now then some now else last) is
engaged_after timeout engaged last (tick now ∷ is) =
    engaged_after timeout (engaged || not (recent timeout last now)) last is
engaged_after timeout engaged last (rearmed now ∷ is) =
    engaged_after timeout (engaged && not (recent timeout last now)) last is

abbrev finite_if_there : Option Float → Bool
finite_if_there none = true
finite_if_there (some t) = is_finite t

is_fresh-recent :
    (w : LinkWatchdog) (now : Float)
    → is_fresh w now ≡ recent w.timeout_s w.last_heartbeat_mono_s now
unfolding is_fresh age
is_fresh-recent w now = ground arith

lost-recent :
    (last : Option Float) (timeout now : Float)
    → is_finite timeout ≡ true
    → finite_if_there last ≡ true
    → link_is_lost (age last now) timeout ≡ not (recent timeout last now)
unfolding age
lost-recent none timeout now f l = refl
lost-recent (some t) timeout now f l = elim (Bool-cases (is_finite now)) [
  | inl finite ↦
      let a = is_finite-fsub now t finite l in
      ground (
        arith,
        finite,
        not-flt timeout (fsub now t) f a,
        not-flt (fsub now t) fzero a (unfold is_finite in refl),
      )
  | inr bad ↦ ground (arith, bad)
]

heard :
    (w : LinkWatchdog) (now : Float)
    → (observe_heartbeat w now).0 ≡ record w {
      last_heartbeat_mono_s = if is_finite now then some now else w.last_heartbeat_mono_s;
    }
unfolding observe_heartbeat
heard w now = ground arith

heard_finite :
    (last : Option Float) (now : Float)
    → finite_if_there last ≡ true
    → finite_if_there (if is_finite now then some now else last) ≡ true
heard_finite last now l = elim (Bool-cases (is_finite now)) [
  | inl good ↦ rw (good, good) refl
  | inr bad ↦ rw bad l
]

released :
    (w : LinkWatchdog) (now : Float)
    → (rearm w now).0
      ≡ record w { engaged = w.engaged && not (recent w.timeout_s w.last_heartbeat_mono_s now) }
unfolding rearm
released w now = ground (arith, is_fresh-recent w now)

-- The watchdog, seen through its timeout and its last heartbeat.
engaged-receive_all :
    (w : LinkWatchdog) (is : List Input)
    → is_finite w.timeout_s ≡ true
    → finite_if_there w.last_heartbeat_mono_s ≡ true
    → (receive_all w is).engaged ≡ engaged_after w.timeout_s w.engaged w.last_heartbeat_mono_s is
unfolding engaged_after evaluate
engaged-receive_all w [] f l = refl
engaged-receive_all w (heartbeat now ∷ is) f l =
    let last' = if is_finite now then some now else w.last_heartbeat_mono_s in
    ap (λ v. (receive_all v is).engaged) (heard w now)
    ∙ engaged-receive_all (record w { last_heartbeat_mono_s = last' }) is f
        (heard_finite w.last_heartbeat_mono_s now l)
engaged-receive_all w (tick now ∷ is) f l =
    engaged-receive_all (evaluate w now).0 is f l
    ∙ ap (λ b. engaged_after w.timeout_s b w.last_heartbeat_mono_s is)
        (ground (arith, lost-recent w.last_heartbeat_mono_s w.timeout_s now f l))
engaged-receive_all w (rearmed now ∷ is) f l =
    let engaged' = w.engaged && not (recent w.timeout_s w.last_heartbeat_mono_s now) in
    ap (λ v. (receive_all v is).engaged) (released w now)
    ∙ engaged-receive_all (record w { engaged = engaged' }) is f l

receive_all-append :
    (w : LinkWatchdog) (is js : List Input)
    → receive_all w (is ++ js) ≡ receive_all (receive_all w is) js
receive_all-append w [] js = refl
receive_all-append w (i ∷ is) js = receive_all-append (receive w i) is js

new-finite :
    (timeout : Float) {w : LinkWatchdog}
    → new_watchdog timeout ≡ some w
    → (w.timeout_s ≡ timeout)
      × (is_finite timeout ≡ true)
      × (w.engaged ≡ true)
      × (w.last_heartbeat_mono_s ≡ none)
unfolding new_watchdog require_finite
new-finite timeout h = (ground arith, ground arith, ground arith, ground arith)

-- From a new watchdog, after any heartbeats, evaluations and rearm requests at any times: an evaluation
-- reports a stop, with the reason link_loss and the engage payload, exactly if the latch is engaged. It
-- starts engaged, an evaluation without a recent heartbeat engages it, and only a rearm request
-- with a recent heartbeat releases it; otherwise nothing is sent, never a clear.
pub link_loss_latches :
    (timeout : Float) {w : LinkWatchdog} (is : List Input) (now : Float)
    → new_watchdog timeout ≡ some w
    → ((evaluate (receive_all w is) now).1.engaged
        ≡ engaged_after timeout true none (is ++ (tick now ∷ [])))
      × (stop_request_payload (some (evaluate (receive_all w is) now).1) ≡ (
          if engaged_after timeout true none (is ++ (tick now ∷ []))
          then some engage_payload
          else none))
      × ((evaluate (receive_all w is) now).1.reason_code ≡ (
          if engaged_after timeout true none (is ++ (tick now ∷ []))
          then some reason_link_loss
          else none))
unfolding stop_request_payload
link_loss_latches timeout {w} is now start =
    let (t, f, e, l) = new-finite timeout start in
    let run = engaged-receive_all w (is ++ (tick now ∷ [])) (rw t f) (rw l refl) in
    let same : (evaluate (receive_all w is) now).0.engaged
        ≡ engaged_after timeout true none (is ++ (tick now ∷ [])) =
      ap (λ (v : LinkWatchdog). v.engaged) (sym (receive_all-append w is (tick now ∷ [])))
      ∙ run
      ∙ rw (t, e, l) refl in
    unfold evaluate in (same, rw same (ground arith), rw same refl)
