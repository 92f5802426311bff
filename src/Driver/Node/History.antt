-- ===== src/Driver/Node/History.antt =====
-- What the core remembers, told from the events alone: the last command, and the permission.
use miniature_warehouse_robo.Base.{
  String, ◌≡◌, refl, Bool, true, false, not, ◌&&◌, ◌||◌, Option, none, some, List, [], ◌∷◌, arith,
  if◌then◌else◌, Option-cases, inl, inr, ◌∙◌,
}
use miniature_warehouse_robo.Base.Float.{Float, is_finite, flt, fle, fzero}
use miniature_warehouse_robo.Driver.Core.{
  M1DriverCore, new_core, regressed, on_stop_state, on_cmd_vel, on_watchdog_tick, shutdown_sequence,
}
use miniature_warehouse_robo.Driver.StopState.{decode_stop_state}
use miniature_warehouse_robo.Driver.Node.{
  Setup, Event, cmd_vel, stop_state, watchdog, shut_down, started, handle, core_after,
}

-- The time of the last command.
abbrev pub commanded : List Event → Option Float
commanded [] = none
commanded (cmd_vel vx vy wz now ∷ past) = some now
commanded (stop_state payload now ∷ past) = commanded past
commanded (watchdog now ∷ past) = commanded past
commanded (shut_down ∷ past) = commanded past

-- Can the deadline grant a permission?
abbrev pub usable : Float → Bool
usable valid_until = is_finite valid_until && not (fle valid_until fzero)

-- Has a payload had a usable deadline above this one?
abbrev pub exceeded : Setup → List Event → Float → Bool
exceeded s [] u = false
exceeded s (cmd_vel vx vy wz now ∷ past) u = exceeded s past u
exceeded s (stop_state payload now ∷ past) u =
    let v = (decode_stop_state s.loads payload now s.stop_state_max_validity_s).1 in
    (usable v && flt u v) || exceeded s past u
exceeded s (watchdog now ∷ past) u = exceeded s past u
exceeded s (shut_down ∷ past) u = exceeded s past u

-- The last payload grants the permission until its deadline, if it requests no stop, its deadline is
-- usable, and none before was later.
abbrev pub granted : Setup → List Event → Option Float
granted s [] = none
granted s (cmd_vel vx vy wz now ∷ past) = granted s past
granted s (stop_state payload now ∷ past) =
    let (stop_requested, v) = decode_stop_state s.loads payload now s.stop_state_max_validity_s in
    if stop_requested || (not (usable v) || exceeded s past v) then none else some v
granted s (watchdog now ∷ past) = granted s past
granted s (shut_down ∷ past) = granted s past

-- The parts of the core that no event changes.
pub record IsSetUp (s : Setup) (c : M1DriverCore) : Type 0 where
  pub timeout : c.cmd_timeout_s ≡ (started s).cmd_timeout_s
  pub overlay : c.stop_overlay_enabled ≡ s.stop_overlay_enabled
  pub error : c.config_error ≡ (started s).config_error
  pub wheel : c.wheel_scale ≡ (started s).wheel_scale
  pub yaw : c.yaw_scale ≡ (started s).yaw_scale
  pub lateral : c.lateral_enabled ≡ s.lateral_enabled

IsSetUp-handle :
    (s : Setup) (c : M1DriverCore) (e : Event) → IsSetUp s c → IsSetUp s (handle s c e).0
unfolding handle on_stop_state on_cmd_vel on_watchdog_tick shutdown_sequence
IsSetUp-handle s c (cmd_vel vx vy wz now) h = ground arith
IsSetUp-handle s c (stop_state payload now) h = ground arith
IsSetUp-handle s c (watchdog now) h = ground arith
IsSetUp-handle s c shut_down h = ground arith

pub IsSetUp-core_after : (s : Setup) (past : List Event) → IsSetUp s (core_after s past)
unfolding core_after started new_core
IsSetUp-core_after s [] = ground arith
IsSetUp-core_after s (e ∷ past) = IsSetUp-handle s (core_after s past) e (IsSetUp-core_after s past)

flt_up : (u v w : Float) → flt u v ≡ true → flt v w ≡ true → flt u w ≡ true
unfolding flt
flt_up u v w h k = ground arith

flt_down : (u v w : Float) → is_finite v ≡ true → flt v w ≡ false → flt u w ≡ true → flt u v ≡ true
unfolding flt is_finite
flt_down u v w finite h k = ground arith

-- The watermark is the highest usable deadline.
watermark-on_stop_state :
    (c : M1DriverCore) (stop : Bool) (v u : Float)
    → c.stop_overlay_enabled ≡ true
    → regressed (on_stop_state c stop v).overlay_deadline_watermark u
      ≡ ((usable v && flt u v) || regressed c.overlay_deadline_watermark u)
unfolding on_stop_state
watermark-on_stop_state c stop v u on = elim (Option-cases c.overlay_deadline_watermark) [
  | inl fresh ↦ ground (arith, on, fresh)
  | inr (w, high) ↦ ground (arith, on, high, flt_up u v w, flt_down u v w)
]

permit-on_stop_state :
    (c : M1DriverCore) (stop : Bool) (v : Float)
    → c.stop_overlay_enabled ≡ true
    → (on_stop_state c stop v).overlay_permit_until ≡ (
        if stop || (not (usable v) || regressed c.overlay_deadline_watermark v)
        then none
        else some v)
unfolding on_stop_state
permit-on_stop_state c stop v on = ground (arith, on)

-- With the overlay, the core remembers of its past the last command, the highest usable deadline and
-- the permission.
pub record Remembers (s : Setup) (past : List Event) (c : M1DriverCore) : Type 0 where
  pub command : c.last_cmd_time ≡ commanded past
  pub highest : (u : Float) → regressed c.overlay_deadline_watermark u ≡ exceeded s past u
  pub permit : c.overlay_permit_until ≡ granted s past

command-handle :
    (s : Setup) (c : M1DriverCore) (e : Event) (past : List Event)
    → c.last_cmd_time ≡ commanded past
    → (handle s c e).0.last_cmd_time ≡ commanded (e ∷ past)
unfolding handle on_stop_state on_cmd_vel on_watchdog_tick shutdown_sequence
command-handle s c (cmd_vel vx vy wz now) past h = ground arith
command-handle s c (stop_state payload now) past h = ground arith
command-handle s c (watchdog now) past h = ground arith
command-handle s c shut_down past h = ground arith

pub command-core_after :
    (s : Setup) (past : List Event) → (core_after s past).last_cmd_time ≡ commanded past
unfolding core_after started new_core
command-core_after s [] = refl
command-core_after s (e ∷ past) =
    command-handle s (core_after s past) e past (command-core_after s past)

highest-handle :
    (s : Setup) (c : M1DriverCore) (e : Event) (past : List Event) (u : Float)
    → s.stop_overlay_enabled ≡ true
    → c.stop_overlay_enabled ≡ s.stop_overlay_enabled
    → regressed c.overlay_deadline_watermark u ≡ exceeded s past u
    → regressed (handle s c e).0.overlay_deadline_watermark u ≡ exceeded s (e ∷ past) u
unfolding handle on_cmd_vel on_watchdog_tick shutdown_sequence
highest-handle s c (cmd_vel vx vy wz now) past u on same h = ground arith
highest-handle s c (stop_state payload now) past u on same h =
    let (stop, v) = decode_stop_state s.loads payload now s.stop_state_max_validity_s in
    ground (arith, watermark-on_stop_state c stop v u)
highest-handle s c (watchdog now) past u on same h = ground arith
highest-handle s c shut_down past u on same h = ground arith

permit-handle :
    (s : Setup) (c : M1DriverCore) (e : Event) (past : List Event)
    → s.stop_overlay_enabled ≡ true
    → c.stop_overlay_enabled ≡ s.stop_overlay_enabled
    → ((u : Float) → regressed c.overlay_deadline_watermark u ≡ exceeded s past u)
    → c.overlay_permit_until ≡ granted s past
    → (handle s c e).0.overlay_permit_until ≡ granted s (e ∷ past)
unfolding handle on_cmd_vel on_watchdog_tick shutdown_sequence
permit-handle s c (cmd_vel vx vy wz now) past on same high h = ground arith
permit-handle s c (stop_state payload now) past on same high h =
    let (stop, v) = decode_stop_state s.loads payload now s.stop_state_max_validity_s in
    ground (arith, same ∙ on, high v, permit-on_stop_state c stop v)
permit-handle s c (watchdog now) past on same high h = ground arith
permit-handle s c shut_down past on same high h = ground arith

pub Remembers-core_after :
    (s : Setup) (past : List Event)
    → s.stop_overlay_enabled ≡ true
    → Remembers s past (core_after s past)
unfolding core_after started new_core
Remembers-core_after s [] on = record { command = refl; highest = λ u. refl; permit = refl }
Remembers-core_after s (e ∷ past) on =
    let c = core_after s past in
    let r = Remembers-core_after s past on in
    let same = (IsSetUp-core_after s past).overlay in
    record {
      command = command-handle s c e past r.command;
      highest = λ u. highest-handle s c e past u on same (r.highest u);
      permit = permit-handle s c e past on same r.highest r.permit;
    }

-- The last stop_state payload, and when it was received.
abbrev pub latest : List Event → Option (String × Float)
latest [] = none
latest (cmd_vel vx vy wz now ∷ past) = latest past
latest (stop_state payload now ∷ past) = some (payload, now)
latest (watchdog now ∷ past) = latest past
latest (shut_down ∷ past) = latest past

-- A permission is that of the last payload: it requests no stop, and its deadline is usable.
pub granted-latest :
    (s : Setup) (past : List Event) {u : Float}
    → granted s past ≡ some u
    → (payload : String) × (received : Float) × (latest past ≡ some (payload, received))
      × (decode_stop_state s.loads payload received s.stop_state_max_validity_s ≡ (false, u))
      × (usable u ≡ true)
granted-latest s [] h = absurd (cc)
granted-latest s (cmd_vel vx vy wz now ∷ past) h = granted-latest s past h
granted-latest s (stop_state payload now ∷ past) {u} h =
    let e = decode_stop_state s.loads payload now s.stop_state_max_validity_s in
    let stop : e.0 ≡ false = ground arith in
    let until : e.1 ≡ u = ground arith in
    (payload, now, refl, (λ i. (stop i, until i)), ground arith)
granted-latest s (watchdog now ∷ past) h = granted-latest s past h
granted-latest s (shut_down ∷ past) h = granted-latest s past h
