-- ===== src/Teleop/Keymap.antt =====
-- keymap.py of ws/src/warehouse_teleop/warehouse_teleop: a key to a twist. The parameter `lower` is
-- `str.lower`, and an infinite or negative step or cap counts as zero.
use miniature_warehouse_robo.Base.{String, ◌&&◌, ◌||◌, ◌==◌, List, [], ◌∷◌, if◌then◌else◌}
use miniature_warehouse_robo.Base.Dict.{has}
use miniature_warehouse_robo.Base.Float.{Float, is_finite, fle, fneg, fzero, micro, units}
use miniature_warehouse_robo.Safety.Limits.{max_linear_velocity, clamp_velocity}

abbrev pub default_linear_step : Float
default_linear_step = max_linear_velocity

abbrev pub default_angular_step : Float
default_angular_step = units 1

abbrev pub default_max_angular : Float
default_max_angular = micro 1_500_000

abbrev forward_keys : List String
forward_keys = "w" ∷ "up" ∷ []

abbrev backward_keys : List String
backward_keys = "s" ∷ "down" ∷ []

abbrev left_keys : List String
left_keys = "a" ∷ "left" ∷ []

abbrev right_keys : List String
right_keys = "d" ∷ "right" ∷ []

abbrev pub quit_keys : List String
quit_keys = "q" ∷ "quit" ∷ []

-- `ARROW_MAP`, then Ctrl-C and Ctrl-D.
unfoldable pub decode_key : String → String
decode_key raw =
    if raw == "\u{1b}[A"
    then "up"
    else if raw == "\u{1b}[B"
    then "down"
    else if raw == "\u{1b}[C"
    then "right"
    else if raw == "\u{1b}[D"
    then "left"
    else if raw == "\u{3}" || raw == "\u{4}"
    then "quit"
    else raw

-- Zero for what is not finite or is negative, also `_nonneg` of teleop_keyboard.py.
unfoldable pub nonneg_or_zero : Float → Float
nonneg_or_zero x = if is_finite x && fle fzero x then x else fzero

-- The pair that `key_to_twist` returns.
pub record Command : Type 0 where
  pub vx : Float
  pub wz : Float

abbrev pub no_motion : Command
no_motion = record { vx = fzero; wz = fzero }

-- The request of a token: linear and angular.
unfoldable pub requested : String → Float → Float → Command
unfolding has
requested token lin_step ang_step =
    if has forward_keys token
    then record { vx = lin_step; wz = fzero }
    else if has backward_keys token
    then record { vx = fneg lin_step; wz = fzero }
    else if has left_keys token
    then record { vx = fzero; wz = ang_step }
    else if has right_keys token
    then record { vx = fzero; wz = fneg ang_step }
    else no_motion

module _ (lower : String → String) where
  unfoldable pub key_to_twist : String → Float → Float → Float → Float → Command
  unfolding requested nonneg_or_zero
  key_to_twist key lin_step ang_step max_speed max_angular =
      let request = requested (lower key) (nonneg_or_zero lin_step) (nonneg_or_zero ang_step) in
      record {
        vx = clamp_velocity request.vx (nonneg_or_zero max_speed);
        wz = clamp_velocity request.wz (nonneg_or_zero max_angular);
      }
