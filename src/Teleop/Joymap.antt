-- ===== src/Teleop/Joymap.antt =====
-- joymap.py of ws/src/warehouse_teleop/warehouse_teleop: a sample of the gamepad to a twist, and the
-- freshness of the samples. A button is the integer of its message, and an index is one too, since -1 and
-- below are tested for. The arithmetic of floats is the parameter of the driver's clamp.
use miniature_warehouse_robo.Base.{
  ℕ, zero, suc, Bool, true, false, not, ◌&&◌, ◌||◌, Option, none, some, List, [], ◌∷◌, is_some,
  if◌then◌else◌,
}
use miniature_warehouse_robo.Base.Int.{ℤ, pos, negsuc}
use miniature_warehouse_robo.Base.Float.{Float, is_finite, flt, fabs, fneg, fzero}
use miniature_warehouse_robo.Safety.Limits.{max_linear_velocity, fmin, clamp_velocity}
use miniature_warehouse_robo.Link.Session.{joy_is_stale}
use miniature_warehouse_robo.Driver.Clamp.{Arithmetic}

abbrev pub get_elem? {ℓ} : {A : Type ℓ} → List A → ℕ → Option A
get_elem? [] n = none
get_elem? (x ∷ xs) zero = some x
get_elem? (x ∷ xs) (suc n) = get_elem? xs n

-- `xs[index]`, where 0 ≤ index < len(xs).
abbrev pub at_index {ℓ} : {A : Type ℓ} → List A → ℤ → Option A
at_index xs (pos n) = get_elem? xs n
at_index xs (negsuc n) = none

abbrev nonzero : Option ℤ → Bool
nonzero none = false
nonzero (some (pos zero)) = false
nonzero (some (pos (suc n))) = true
nonzero (some (negsuc n)) = true

unfoldable pub nonneg : Float → Float
nonneg value = if not (is_finite value) || flt value fzero then fzero else value

abbrev finite_or_zero : Option Float → Float
finite_or_zero none = fzero
finite_or_zero (some value) = if not (is_finite value) then fzero else value

unfoldable pub axis : List Float → ℤ → Float
axis axes index = finite_or_zero (at_index axes index)

unfoldable pub apply_deadzone : Float → Float → Float
apply_deadzone value deadzone = if flt (fabs value) deadzone then fzero else value

abbrev pub Twist : Type 0
Twist = Float × Float × Float

abbrev pub zero_twist : Twist
zero_twist = (fzero, fzero, fzero)

pub record JoyParams : Type 0 where
  pub axis_linear_x : ℤ
  pub axis_linear_y : ℤ
  pub axis_angular : ℤ
  pub deadman_button : ℤ
  pub deadzone : Float
  pub max_linear : Float
  pub max_angular : Float
  pub invert_x : Bool
  pub invert_y : Bool
  pub invert_wz : Bool

-- The vector cap: back to the cap, in the same direction.
abbrev capped : Arithmetic → Float → Float × Float → Float × Float
capped a linear_cap (vx, vy) =
    let magnitude = a.hypot vx vy in
    let scale = a.div linear_cap magnitude in
    if flt linear_cap magnitude && flt fzero magnitude
    then (a.mul vx scale, a.mul vy scale)
    else (vx, vy)

abbrev inverted : Bool → Float → Float
inverted invert value = if invert then fneg value else value

-- The twist of a sample whose deadman button is held.
unfoldable pub mapped : Arithmetic → JoyParams → List Float → Twist
unfolding nonneg axis apply_deadzone
mapped a p axes =
    let linear_cap = fmin (nonneg p.max_linear) max_linear_velocity in
    let angular_cap = nonneg p.max_angular in
    let dz = nonneg p.deadzone in
    let ax = apply_deadzone (axis axes p.axis_linear_x) dz in
    let ay = apply_deadzone (axis axes p.axis_linear_y) dz in
    let aw = apply_deadzone (axis axes p.axis_angular) dz in
    let (vx, vy) =
      capped a linear_cap
        (a.mul (inverted p.invert_x ax) linear_cap, a.mul (inverted p.invert_y ay) linear_cap) in
    (vx, vy, clamp_velocity (a.mul (inverted p.invert_wz aw) angular_cap) angular_cap)

unfoldable pub joy_to_twist : Arithmetic → JoyParams → List Float → List ℤ → Twist
unfolding mapped
joy_to_twist a p axes buttons =
    if not (is_some (at_index buttons p.deadman_button))
    then zero_twist
    else if not (nonzero (at_index buttons p.deadman_button))
    then zero_twist
    else mapped a p axes

unfoldable pub apply_joy_freshness : Twist → Float → Float → Twist
unfolding joy_is_stale
apply_joy_freshness latest elapsed timeout =
    if joy_is_stale elapsed timeout then zero_twist else latest

-- Out of range reads as not pressed.
unfoldable pub pressed : List ℤ → ℤ → Bool
pressed buttons index = nonzero (at_index buttons index)
