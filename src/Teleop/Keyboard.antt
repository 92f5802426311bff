-- ===== src/Teleop/Keyboard.antt =====
-- teleop_keyboard.py of ws/src/warehouse_teleop/warehouse_teleop: the node that holds the command of the
-- last key. An event of the timer is the raw key that was read, if any, and the clock in seconds.
pub mod Runs
mod Witnesses
use miniature_warehouse_robo.Base.{
  String, Bool, true, false, Option, none, some, ◌&&◌, List, [], ◌∷◌, if◌then◌else◌,
}
use miniature_warehouse_robo.Base.Dict.{has}
use miniature_warehouse_robo.Base.Float.{Float, micro, is_finite, flt, fsub, fzero}
use miniature_warehouse_robo.Safety.Limits.{max_linear_velocity, fmin}
use miniature_warehouse_robo.Teleop.Keymap.{
  Command, no_motion, quit_keys, decode_key, nonneg_or_zero, key_to_twist,
}

-- `_positive`
unfoldable pub positive_or : Float → Float → Float
positive_or value default = if is_finite value && flt fzero value then value else default

abbrev pub default_stop_timeout : Float
default_stop_timeout = micro 600_000

-- The parameters as they are declared.
pub record Params : Type 0 where
  pub max_linear_velocity_param : Float
  pub linear_step : Float
  pub angular_step : Float
  pub max_angular_velocity : Float
  pub stop_timeout : Float

pub record Keyboard : Type 0 where
  pub max_linear : Float
  pub lin_step : Float
  pub ang_step : Float
  pub max_angular : Float
  pub stop_timeout : Float
  pub command : Command
  pub last_key_time : Float
  pub shutdown_requested : Bool

unfoldable pub new_keyboard : Params → Float → Keyboard
unfolding fmin nonneg_or_zero positive_or
new_keyboard p now = record {
  max_linear = fmin (nonneg_or_zero p.max_linear_velocity_param) max_linear_velocity;
  lin_step = nonneg_or_zero p.linear_step;
  ang_step = nonneg_or_zero p.angular_step;
  max_angular = nonneg_or_zero p.max_angular_velocity;
  stop_timeout = positive_or p.stop_timeout default_stop_timeout;
  command = no_motion;
  last_key_time = now;
  shutdown_requested = false;
}

-- `stop`: the state and the twist that it publishes.
abbrev pub stop : Keyboard → Keyboard
stop k = record k { command = no_motion }

module _ (lower : String → String) where
  -- `_tick`, with the twist that it publishes.
  unfoldable pub tick : Keyboard → Option String → Float → Keyboard × Command
  unfolding has decode_key key_to_twist flt fsub
  tick k none now =
      let held = if flt k.stop_timeout (fsub now k.last_key_time) then stop k else k in
      (held, held.command)
  tick k (some raw) now =
      let token = decode_key raw in
      let command = key_to_twist lower token k.lin_step k.ang_step k.max_linear k.max_angular in
      if has quit_keys token
      then (record (stop k) { shutdown_requested = true }, no_motion)
      else (record k { command = command; last_key_time = now }, command)

  -- `_spin_until_quit`, then `_stop_and_restore`: the twists that are published.
  unfoldable pub spin_until_quit : Keyboard → List (Option String × Float) → List Command
  unfolding tick
  spin_until_quit k [] = no_motion ∷ []
  spin_until_quit k ((raw, now) ∷ events) =
      let (moved, published) = tick k raw now in
      let rest = spin_until_quit moved events in
      if k.shutdown_requested then no_motion ∷ [] else published ∷ rest
