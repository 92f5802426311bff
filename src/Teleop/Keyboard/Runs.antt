-- ===== src/Teleop/Keyboard/Runs.antt =====
-- Whole runs of the keyboard node.
use miniature_warehouse_robo.Base.{
  String, Bool, true, false, Option, none, some, ◌&&◌, ◌||◌, ◌≡◌, refl, ◌∙◌, ap, sym, if_elim, List,
  [], ◌∷◌, ◌++◌, all, any, arith, Bool-cases, inl, inr, if◌then◌else◌,
}
use miniature_warehouse_robo.Base.Dict.{has}
use miniature_warehouse_robo.Base.Int.{pos, -ℤ_parts, ◌-ℤ◌}
use miniature_warehouse_robo.Base.Float.{
  Float, fin, nan, inf, neg_inf, is_finite, flt, fle, fneg, fsub, fzero,
}
use miniature_warehouse_robo.Safety.Limits.{max_linear_velocity, fmin, clamp_velocity}
use miniature_warehouse_robo.Safety.Limits.Bounds.{clamp_velocity_bounds}
use miniature_warehouse_robo.Teleop.Keymap.{
  Command, no_motion, quit_keys, decode_key, nonneg_or_zero, requested, key_to_twist,
}
use miniature_warehouse_robo.Teleop.Keyboard.{
  Params, Keyboard, new_keyboard, stop, tick, spin_until_quit,
}

abbrev pub is_within_cap : Command → Bool
is_within_cap v = fle (fneg max_linear_velocity) v.vx && fle v.vx max_linear_velocity

abbrev Capped : Float → Type 0
Capped m = (fle fzero m ≡ true) × (fle m max_linear_velocity ≡ true)

clamp-is_within_cap :
    (v w m : Float) → Capped m → is_within_cap (record { vx = clamp_velocity v m; wz = w }) ≡ true
unfolding fle fneg
clamp-is_within_cap v w (fin c) h =
    let b = clamp_velocity_bounds v c h.0 in
    ground (arith, b, h.1, -ℤ_parts (pos 0) c, -ℤ_parts (pos 0) (pos 300_000))
clamp-is_within_cap v w nan h = cc
clamp-is_within_cap v w inf h = cc
clamp-is_within_cap v w neg_inf h = cc

Capped-nonneg_or_zero : (m : Float) → Capped m → Capped (nonneg_or_zero m)
unfolding nonneg_or_zero fle is_finite
Capped-nonneg_or_zero m h = ground (arith, h)

Capped-fmin : (m : Float) → Capped (fmin (nonneg_or_zero m) max_linear_velocity)
unfolding nonneg_or_zero fmin fle flt is_finite
Capped-fmin (fin a) = (ground arith, ground arith)
Capped-fmin nan = (refl, refl)
Capped-fmin inf = (refl, refl)
Capped-fmin neg_inf = (refl, refl)

-- What a node keeps: a command and a cap within the hard cap.
abbrev IsBounded : Keyboard → Type 0
IsBounded k = Capped k.max_linear × (is_within_cap k.command ≡ true)

-- A key pressed at a time is older than the timeout.
abbrev pub is_late : Float → Float → Float → Bool
is_late stop_timeout pressed now = flt stop_timeout (fsub now pressed)

if_same : (b : Bool) (c : Command) → (if b then c else c) ≡ c
if_same true c = refl
if_same false c = refl

module _ (lower : String → String) where
  key_to_twist-is_within_cap :
      (key : String) (lin_step ang_step max_speed max_angular : Float)
      → Capped max_speed
      → is_within_cap (key_to_twist lower key lin_step ang_step max_speed max_angular) ≡ true
  unfolding key_to_twist
  key_to_twist-is_within_cap key lin_step ang_step max_speed max_angular h =
      let request = requested (lower key) (nonneg_or_zero lin_step) (nonneg_or_zero ang_step) in
      clamp-is_within_cap request.vx (clamp_velocity request.wz (nonneg_or_zero max_angular))
        (nonneg_or_zero max_speed) (Capped-nonneg_or_zero max_speed h)

  zero-is_within_cap : is_within_cap no_motion ≡ true
  unfolding fle fneg ◌-ℤ◌
  zero-is_within_cap = refl

  tick-IsBounded :
      (k : Keyboard) (raw : Option String) (now : Float)
      → IsBounded k
      → IsBounded (tick lower k raw now).0 × (is_within_cap (tick lower k raw now).1 ≡ true)
  unfolding tick
  tick-IsBounded k none now h = elim (Bool-cases (flt k.stop_timeout (fsub now k.last_key_time))) [
    | inl late ↦ rw late ((h.0, zero-is_within_cap), zero-is_within_cap)
    | inr fresh ↦ rw fresh (h, h.1)
  ]
  tick-IsBounded k (some raw) now h =
      let b =
        key_to_twist-is_within_cap (decode_key raw) k.lin_step k.ang_step k.max_linear k.max_angular
          h.0 in
      elim (Bool-cases (has quit_keys (decode_key raw))) [
        | inl quits ↦ rw quits ((h.0, zero-is_within_cap), zero-is_within_cap)
        | inr drives ↦ rw drives ((h.0, b), b)
      ]

  spin-is_within_cap :
      (k : Keyboard) (events : List (Option String × Float))
      → IsBounded k
      → all is_within_cap (spin_until_quit lower k events) ≡ true
  unfolding spin_until_quit all
  spin-is_within_cap k [] h = rw zero-is_within_cap refl
  spin-is_within_cap k ((raw, now) ∷ events) h =
      let (b, published) = tick-IsBounded k raw now h in
      let rest = spin-is_within_cap (tick lower k raw now).0 events b in
      if_elim (λ xs. all is_within_cap xs ≡ true) k.shutdown_requested (no_motion ∷ [])
        ((tick lower k raw now).1 ∷ spin_until_quit lower (tick lower k raw now).0 events)
        (λ e. rw zero-is_within_cap refl) (λ e. rw (published, rest) refl)

  -- The ticks that read no key.
  abbrev pub idle : Keyboard → List Float → Keyboard
  idle k [] = k
  idle k (now ∷ times) = idle (tick lower k none now).0 times

  command-idle :
      (k : Keyboard) (times : List Float)
      → (idle k times).command
        ≡ (if any (is_late k.stop_timeout k.last_key_time) times then no_motion else k.command)
  unfolding tick any
  command-idle k [] = refl
  command-idle k (now ∷ times) =
      let late_now = is_late k.stop_timeout k.last_key_time now in
      let late_later = any (is_late k.stop_timeout k.last_key_time) times in
      elim (Bool-cases late_now) [
        | inl late ↦
            let e : flt k.stop_timeout (fsub now k.last_key_time) ≡ true = late in
            let stopped = command-idle (stop k) times ∙ if_same late_later no_motion in
            ap (λ b. (idle (if b then stop k else k) times).command) e
            ∙ stopped
            ∙ sym (ap (λ b. if b || late_later then no_motion else k.command) late)
        | inr fresh ↦
            let e : flt k.stop_timeout (fsub now k.last_key_time) ≡ false = fresh in
            ap (λ b. (idle (if b then stop k else k) times).command) e
            ∙ command-idle k times
            ∙ sym (ap (λ b. if b || late_later then no_motion else k.command) fresh)
      ]

  idle-last :
      (k : Keyboard) (times : List Float) (now : Float)
      → (tick lower (idle k times) none now).1 ≡ (idle k (times ++ (now ∷ []))).command
  unfolding tick
  idle-last k [] now = refl
  idle-last k (time ∷ times) now = idle-last (tick lower k none time).0 times now

  -- The node after a key that does not quit.
  abbrev driven : Keyboard → String → Float → Keyboard
  driven k raw pressed = record k {
    command = key_to_twist lower (decode_key raw) k.lin_step k.ang_step k.max_linear k.max_angular;
    last_key_time = pressed;
  }

  tick-driven :
      (k : Keyboard) (raw : String) (pressed : Float)
      → has quit_keys (decode_key raw) ≡ false
      → (tick lower k (some raw) pressed).0 ≡ driven k raw pressed
  unfolding tick
  tick-driven k raw pressed h = rw h refl

  -- A key that does not quit, pressed in any state, is the command of every later tick that reads no key,
  -- until the first of them that is older than the timeout; from that one on the twist is zero.
  pub held_until_timeout :
      (k : Keyboard) (raw : String) (pressed : Float) (times : List Float) (now : Float)
      → has quit_keys (decode_key raw) ≡ false
      → (tick lower (idle (tick lower k (some raw) pressed).0 times) none now).1 ≡ (
          if any (is_late k.stop_timeout pressed) (times ++ (now ∷ []))
          then no_motion
          else key_to_twist lower (decode_key raw) k.lin_step k.ang_step k.max_linear k.max_angular)
  held_until_timeout k raw pressed times now h =
      ap (λ moved. (tick lower (idle moved times) none now).1) (tick-driven k raw pressed h)
      ∙ idle-last (driven k raw pressed) times now
      ∙ command-idle (driven k raw pressed) (times ++ (now ∷ []))

-- Whatever the parameters, the keys and the times, every twist that the keyboard node publishes in a run
-- has a linear velocity between minus the hard cap and the cap, up to the zero twist when it quits.
pub published_within_cap :
    (lower : String → String) (p : Params) (start : Float) (events : List (Option String × Float))
    → all is_within_cap (spin_until_quit lower (new_keyboard p start) events) ≡ true
unfolding new_keyboard
published_within_cap lower p start events =
    spin-is_within_cap lower (new_keyboard p start) events
      (Capped-fmin p.max_linear_velocity_param, zero-is_within_cap lower)
