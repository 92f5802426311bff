-- ===== src/Teleop/Keyboard/Witnesses.antt =====
-- The theorems on the keyboard node at a concrete input.
use miniature_warehouse_robo.Base.{
  String, ◌≡◌, refl, true, false, some, none, [], ◌∷◌, all, any, if◌then◌else◌,
}
use miniature_warehouse_robo.Base.Dict.{has}
use miniature_warehouse_robo.Base.Float.{micro, units, inf, fzero}
use miniature_warehouse_robo.Teleop.Keymap.{
  no_motion, quit_keys, decode_key, key_to_twist, default_linear_step, default_angular_step,
  default_max_angular,
}
use miniature_warehouse_robo.Teleop.Keyboard.{Params, Keyboard, new_keyboard, tick, spin_until_quit}
use miniature_warehouse_robo.Teleop.Keyboard.Runs.{
  is_within_cap, idle, is_late, published_within_cap, held_until_timeout,
}

abbrev lower : String → String
lower text = text

-- The launch file asks for more than the hard cap.
abbrev params : Params
params = record {
  max_linear_velocity_param = units 2;
  linear_step = inf;
  angular_step = default_angular_step;
  max_angular_velocity = default_max_angular;
  stop_timeout = micro 600_000;
}

published_within_cap_example :
    all is_within_cap (
      spin_until_quit lower
        (new_keyboard params fzero)
        ((some "w", units 1) ∷ (none, units 2) ∷ (some "q", units 3) ∷ []))
    ≡ true
published_within_cap_example =
    published_within_cap lower params fzero
      ((some "w", units 1) ∷ (none, units 2) ∷ (some "q", units 3) ∷ [])

abbrev keyboard : Keyboard
keyboard = record {
  max_linear = micro 300_000;
  lin_step = default_linear_step;
  ang_step = default_angular_step;
  max_angular = default_max_angular;
  stop_timeout = micro 600_000;
  command = no_motion;
  last_key_time = fzero;
  shutdown_requested = false;
}

arrow_drives : has quit_keys (decode_key "\u{1b}[A") ≡ false
unfolding has decode_key
arrow_drives = refl

held_until_timeout_example :
    (tick lower
      (idle lower (tick lower keyboard (some "\u{1b}[A") (units 1)).0 (micro 1_500_000 ∷ []))
      none
      (units 2)).1
    ≡ (if any (is_late keyboard.stop_timeout (units 1)) (micro 1_500_000 ∷ (units 2 ∷ []))
        then no_motion
        else key_to_twist lower
            (decode_key "\u{1b}[A")
            keyboard.lin_step
            keyboard.ang_step
            keyboard.max_linear
            keyboard.max_angular)
held_until_timeout_example =
    held_until_timeout lower keyboard "\u{1b}[A" (units 1) (micro 1_500_000 ∷ []) (units 2)
      arrow_drives
