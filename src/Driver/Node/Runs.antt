-- ===== src/Driver/Node/Runs.antt =====
-- Runs of the driver node: what reaches the motor board after any events.
use miniature_warehouse_robo.Base.{
  String, ◌≡◌, Bool, true, false, not, ◌&&◌, ◌||◌, some, List, [], ◌∷◌, arith, if◌then◌else◌,
  Bool-cases, Option-cases, inl, inr, ◌∙◌, sym, subst,
}
use miniature_warehouse_robo.Base.Float.{Float, flt, fzero}
use miniature_warehouse_robo.Safety.Limits.{max_linear_velocity}
use miniature_warehouse_robo.Driver.Clamp.{clamp_body_velocity, clamp_body_velocity-bounded}
use miniature_warehouse_robo.Driver.Core.{
  Frame, velocity, brake, to_wire, lateral, fresh, expired, overlay_blocks, on_cmd_vel,
  on_watchdog_tick,
}
use miniature_warehouse_robo.Driver.StopState.{decode_stop_state}
use miniature_warehouse_robo.Driver.StopState.Contract.{horizon, decoded-horizon}
use miniature_warehouse_robo.Driver.Node.{
  Setup, Event, cmd_vel, watchdog, started, handle, core_after,
}
use miniature_warehouse_robo.Driver.Node.History.{
  IsSetUp-core_after, commanded, granted, command-core_after, Remembers-core_after, latest,
  granted-latest,
}

-- May the robot be driven at this time, after the events? Without the overlay, always.
abbrev pub permitted : Setup → List Event → Float → Bool
permitted s past now = not s.stop_overlay_enabled || not (expired (granted s past) now)

pub blocks-core_after :
    (s : Setup) (past : List Event) (now : Float)
    → overlay_blocks (core_after s past) now ≡ not (permitted s past now)
unfolding overlay_blocks
blocks-core_after s past now =
    let same = (IsSetUp-core_after s past).overlay in
    elim (Bool-cases s.stop_overlay_enabled) [
      | inl on ↦ ground (arith, same, on, (Remembers-core_after s past on).permit)
      | inr off ↦ ground (arith, same, off)
    ]

-- The frames of a command.
pub handle-cmd_vel :
    (s : Setup) (past : List Event) (vx vy wz now : Float)
    → let c = core_after s past in
      (handle s c (cmd_vel vx vy wz now)).1 ≡ (
        if (started s).config_error || not (permitted s past now)
        then brake ∷ []
        else to_wire s.arithmetic c (clamp_body_velocity s.arithmetic vx (lateral c vy) wz) ∷ [])
unfolding handle on_cmd_vel overlay_blocks to_wire lateral
handle-cmd_vel s past vx vy wz now =
    let c = core_after s past in
    let blocks = blocks-core_after s past now in
    let same = (IsSetUp-core_after s past).error in ground (arith, blocks, same)

-- Any command and any tick: a tick stays silent exactly when the drive train is usable, a command came
-- within the timeout, and the robot may be driven; else it brakes.
pub handle-watchdog :
    (s : Setup) (past : List Event) (now : Float)
    → let recent = fresh (commanded past) (started s).cmd_timeout_s now in
      (handle s (core_after s past) (watchdog now)).1 ≡ (
        if not (started s).config_error && (recent && permitted s past now) then [] else brake ∷ [])
unfolding handle on_watchdog_tick overlay_blocks
handle-watchdog s past now =
    let blocks = blocks-core_after s past now in
    let setup = IsSetUp-core_after s past in
    ground (arith, blocks, setup.error, setup.timeout, command-core_after s past)

-- A frame that moves the robot after the events: the drive train is usable, the frame is the wire form of
-- a vector that is not above the cap, and the last stop_state payload requests no stop, was received at
-- most the window before its deadline, and its deadline has not passed.
pub record IsAllowed (s : Setup) (past : List Event) (now : Float) (moved : Frame) : Type 0 where
  pub x : Float
  pub y : Float
  pub turn : Float
  pub wire : moved ≡ to_wire s.arithmetic (core_after s past) (x, y, turn)
  pub capped : flt max_linear_velocity (s.arithmetic.hypot x y) ≡ false
  pub usable_drive : (started s).config_error ≡ false
  pub payload : String
  pub received : Float
  pub until : Float
  pub last : latest past ≡ some (payload, received)
  pub decoded :
      decode_stop_state s.loads payload received s.stop_state_max_validity_s ≡ (false, until)
  pub in_time : flt until now ≡ false
  pub window : flt (horizon received s.stop_state_max_validity_s) until ≡ false

driven :
    (s : Setup) (past : List Event) (vx vy wz now x y z : Float)
    → (handle s (core_after s past) (cmd_vel vx vy wz now)).1 ≡ velocity x y z ∷ []
    → let c = core_after s past in
      ((started s).config_error ≡ false)
      × (permitted s past now ≡ true)
      × (velocity x y z
          ≡ to_wire s.arithmetic c (clamp_body_velocity s.arithmetic vx (lateral c vy) wz))
driven s past vx vy wz now x y z sent =
    let c = core_after s past in
    let out = clamp_body_velocity s.arithmetic vx (lateral c vy) wz in
    let frames = sym (handle-cmd_vel s past vx vy wz now) ∙ sent in
    elim (Bool-cases ((started s).config_error || not (permitted s past now))) [
      | inl braked ↦
          let bad : brake ∷ [] ≡ velocity x y z ∷ [] = ground (arith, frames, braked) in absurd (cc)
      | inr goes ↦
          let same : to_wire s.arithmetic c out ∷ [] ≡ velocity x y z ∷ [] =
            ground (arith, frames, goes) in
          (ground arith, ground arith, cc)
    ]

permission :
    (s : Setup) (past : List Event) (now : Float)
    → s.stop_overlay_enabled ≡ true
    → permitted s past now ≡ true
    → (u : Float) × (granted s past ≡ some u) × (flt u now ≡ false)
permission s past now on allowed = elim (Option-cases (granted s past)) [
  | inl nothing ↦ let bad : false ≡ true = ground (arith, on, nothing) in absurd (cc)
  | inr (u, grant) ↦ (u, grant, ground (arith, on, grant))
]

-- With the overlay on, after any events, a command moves the robot only while the last stop_state payload
-- permits it: that payload requests no stop, its deadline has not passed and is not beyond the window
-- from its receipt; the drive train is usable, and the vector that is sent is not above the cap. The
-- magnitude of the zero vector is taken to be zero.
pub moves_only_permitted :
    (s : Setup) (past : List Event) (vx vy wz now x y z : Float)
    → s.stop_overlay_enabled ≡ true
    → s.arithmetic.hypot fzero fzero ≡ fzero
    → (handle s (core_after s past) (cmd_vel vx vy wz now)).1 ≡ velocity x y z ∷ []
    → IsAllowed s past now (velocity x y z)
moves_only_permitted s past vx vy wz now x y z on zero sent =
    let c = core_after s past in
    let out = clamp_body_velocity s.arithmetic vx (lateral c vy) wz in
    let (usable_drive, allowed, wire) = driven s past vx vy wz now x y z sent in
    let (u, grant, in_time) = permission s past now on allowed in
    let (payload, received, last, decoded, usable) = granted-latest s past grant in
    record {
      x = out.0;
      y = out.1;
      turn = out.2;
      wire = wire;
      capped = (clamp_body_velocity-bounded s.arithmetic vx (lateral c vy) wz zero).0;
      usable_drive = usable_drive;
      payload = payload;
      received = received;
      until = u;
      last = last;
      decoded = decoded;
      in_time = in_time;
      window =
          subst
            (λ (d : Bool × Float). flt (horizon received s.stop_state_max_validity_s) d.1 ≡ false)
            decoded (decoded-horizon s.loads payload received s.stop_state_max_validity_s);
    }
