-- ===== src/Teleop/Witnesses.antt =====
-- The theorem on the gamepad at a concrete input, and tests of the code.
use miniature_warehouse_robo.Base.{◌≡◌, refl, Bool, true, false, List, [], ◌∷◌}
use miniature_warehouse_robo.Base.Int.{ℤ, pos, negsuc}
use miniature_warehouse_robo.Base.Float.{Float, micro, units, fzero}
use miniature_warehouse_robo.Teleop.Joymap.{zero_twist}
use miniature_warehouse_robo.Teleop.Estop.{
  OperatorEstopConfig, operator_estop_step, all_pressed, is_neutral,
}
use miniature_warehouse_robo.Teleop.Node.{
  Setup, new_teleop, Event, joy, handle, handle_all, on_timer, on_joy, published, engage_payload,
}
use miniature_warehouse_robo.Teleop.Node.Rearm.{cleared_later, stopped_until_rearmed}

-- Three buttons and a chord of two: the deadman, the stop, no second stop.
abbrev wiring : OperatorEstopConfig
wiring = record {
  deadman_button = pos 0;
  estop_button = pos 1;
  estop_button_alt = negsuc 0;
  clear_buttons = pos 2 ∷ pos 3 ∷ [];
  axis_linear_x = pos 0;
  axis_linear_y = pos 1;
  axis_angular = pos 2;
  deadzone = micro 100_000;
}

abbrev setup : Setup
setup = record {
  arithmetic = record { hypot = λ x y. x; mul = λ x y. x; div = λ x y. x };
  params = record {
    axis_linear_x = pos 0;
    axis_linear_y = pos 1;
    axis_angular = pos 2;
    deadman_button = pos 0;
    deadzone = micro 100_000;
    max_linear = micro 300_000;
    max_angular = units 1;
    invert_x = false;
    invert_y = false;
    invert_wz = false;
  };
  estop_cfg = wiring;
  joy_timeout_s = units 1;
  publishes_stop = true;
}

abbrev centered : List Float
centered = fzero ∷ fzero ∷ fzero ∷ []

abbrev bit : Bool → ℤ
bit true = pos 1
bit false = pos 0

-- deadman, stop, chord, chord
abbrev buttons : Bool → Bool → Bool → List ℤ
buttons deadman stop chord = bit deadman ∷ bit stop ∷ bit chord ∷ bit chord ∷ []

-- The stop is pressed, with the deadman held.
abbrev before : List Event
before =
    joy centered (buttons false false false) fzero
    ∷ joy centered (buttons true true false) fzero
    ∷ []

-- The chord is held, and the deadman pressed, but the sticks are never centered after it.
abbrev since : List Event
since =
    joy centered (buttons false false true) fzero
    ∷ joy (units 1 ∷ fzero ∷ fzero ∷ []) (buttons false false false) fzero
    ∷ joy (units 1 ∷ fzero ∷ fzero ∷ []) (buttons true false false) fzero
    ∷ []

latched : (handle_all setup new_teleop before).estop_state.latched ≡ true
unfolding handle on_joy operator_estop_step new_teleop
latched = refl

never_rearmed : cleared_later wiring since ≡ false
unfolding is_neutral all_pressed
never_rearmed = refl

stopped_until_rearmed_example :
    (on_timer setup (handle_all setup (handle_all setup new_teleop before) since) fzero).1
    ≡ zero_twist
stopped_until_rearmed_example = stopped_until_rearmed setup before since fzero latched never_rearmed

-- With the sticks centered in between, the gamepad drives.
abbrev rearming : List Event
rearming =
    joy centered (buttons false false true) fzero
    ∷ joy centered (buttons false false false) fzero
    ∷ joy (units 1 ∷ fzero ∷ fzero ∷ []) (buttons true false false) fzero
    ∷ []

drives_again :
    (handle_all setup (handle_all setup new_teleop before) rearming).motion_allowed ≡ true
unfolding handle on_joy operator_estop_step new_teleop is_neutral all_pressed
drives_again = refl

published_stop : published setup new_teleop before ≡ engage_payload ∷ []
unfolding published handle on_joy operator_estop_step new_teleop
published_stop = refl
