-- ===== src/Teleop/Estop.antt =====
-- joymap.py of ws/src/warehouse_teleop/warehouse_teleop: the operator's e-stop latch. Of the reason that
-- `operator_estop_config_error` gives only whether there is one is kept.
use miniature_warehouse_robo.Base.{
  Bool, true, false, not, ◌&&◌, ◌||◌, Option, none, some, List, [], ◌∷◌, any, all, eqb, is_some,
  if◌then◌else◌,
}
use miniature_warehouse_robo.Base.Int.{ℤ, pos, negsuc, pos_part, neg_part, ltb_ℤ, leb_ℤ}
use miniature_warehouse_robo.Base.Float.{Float, is_finite, fle, fabs}
use miniature_warehouse_robo.Teleop.Joymap.{at_index, pressed, nonneg}

abbrev same : ℤ → ℤ → Bool
same a b = eqb (pos_part a) (pos_part b) && eqb (neg_part a) (neg_part b)

abbrev contains : List ℤ → ℤ → Bool
contains xs n = any (λ b. same b n) xs

pub record OperatorEstopConfig : Type 0 where
  pub deadman_button : ℤ
  pub estop_button : ℤ
  pub estop_button_alt : ℤ
  pub clear_buttons : List ℤ
  pub axis_linear_x : ℤ
  pub axis_linear_y : ℤ
  pub axis_angular : ℤ
  pub deadzone : Float

unfoldable pub enabled : OperatorEstopConfig → Bool
enabled cfg = not (same cfg.estop_button (negsuc 0))

pub record OperatorEstopState : Type 0 where
  pub latched : Bool
  pub neutral_seen : Bool
  pub armed : Bool
  pub prev_buttons : Option (List ℤ)

abbrev pub new_estop : OperatorEstopState
new_estop = record { latched = false; neutral_seen = false; armed = false; prev_buttons = none }

pub data EstopAction : Type 0 where
  none_action engage clear : EstopAction

abbrev index_ok {ℓ} : {A : Type ℓ} → List A → ℤ → Bool
index_ok xs index = is_some (at_index xs index)

abbrev centered : Option Float → Float → Bool
centered none dz = false
centered (some value) dz = is_finite value && not (fle dz (fabs value))

unfoldable pub is_neutral : List Float → OperatorEstopConfig → Bool
unfolding nonneg is_finite fle fabs
is_neutral axes cfg =
    let dz = nonneg cfg.deadzone in
    centered (at_index axes cfg.axis_linear_x) dz
    && (centered (at_index axes cfg.axis_linear_y) dz
        && centered (at_index axes cfg.axis_angular) dz)

abbrev no_buttons : List ℤ → Bool
no_buttons [] = true
no_buttons (b ∷ bs) = false

-- The checks that need no sample.
unfoldable pub static_error : OperatorEstopConfig → Bool
unfolding any
static_error cfg =
    let alt = leb_ℤ (pos 0) cfg.estop_button_alt in
    if ltb_ℤ cfg.estop_button (negsuc 0)
    then true
    else if ltb_ℤ cfg.estop_button_alt (negsuc 0)
    then true
    else if no_buttons cfg.clear_buttons
    then true
    else if any (λ b. ltb_ℤ b (pos 0)) cfg.clear_buttons
    then true
    else if same cfg.estop_button cfg.deadman_button
    then true
    else if alt && same cfg.estop_button_alt cfg.deadman_button
    then true
    else if alt && same cfg.estop_button_alt cfg.estop_button
    then true
    else if contains cfg.clear_buttons cfg.deadman_button
    then true
    else if contains cfg.clear_buttons cfg.estop_button
    then true
    else alt && contains cfg.clear_buttons cfg.estop_button_alt

-- The checks of a sample.
unfoldable pub sample_error : OperatorEstopConfig → List ℤ → Bool
unfolding any
sample_error cfg buttons =
    if not (index_ok buttons cfg.deadman_button)
    then true
    else if not (index_ok buttons cfg.estop_button)
    then true
    else if leb_ℤ (pos 0) cfg.estop_button_alt && not (index_ok buttons cfg.estop_button_alt)
    then true
    else any (λ index. not (index_ok buttons index)) cfg.clear_buttons

-- With `none` for the buttons, only the checks that need no sample.
unfoldable pub operator_estop_config_error : OperatorEstopConfig → Option (List ℤ) → Bool
unfolding enabled static_error sample_error
operator_estop_config_error cfg none = enabled cfg && static_error cfg
operator_estop_config_error cfg (some buttons) =
    enabled cfg && (static_error cfg || sample_error cfg buttons)

unfoldable pub rising : Option (List ℤ) → List ℤ → ℤ → Bool
unfolding pressed
rising none now index = false
rising (some prev) now index = pressed now index && not (pressed prev index)

abbrev not_before : Option (List ℤ) → ℤ → Bool
not_before none index = true
not_before (some prev) index = not (pressed prev index)

unfoldable pub estop_rising : Option (List ℤ) → List ℤ → ℤ → Bool
unfolding pressed
estop_rising prev now index = if not (pressed now index) then false else not_before prev index

unfoldable pub all_pressed : List ℤ → List ℤ → Bool
unfolding all pressed
all_pressed buttons indices = all (pressed buttons) indices

unfoldable pub chord_rising : Option (List ℤ) → List ℤ → List ℤ → Bool
unfolding all_pressed
chord_rising none now indices = false
chord_rising (some prev) now indices =
    if no_buttons indices then false else all_pressed now indices && not (all_pressed prev indices)

-- Does the sample engage the stop?
unfoldable pub engages : OperatorEstopConfig → Option (List ℤ) → List ℤ → Bool
unfolding enabled estop_rising
engages cfg prev now =
    enabled cfg
    && (estop_rising prev now cfg.estop_button || estop_rising prev now cfg.estop_button_alt)

-- Does the sample release a latched stop?
unfoldable pub releases : OperatorEstopConfig → Option (List ℤ) → List ℤ → Bool
unfolding enabled chord_rising pressed
releases cfg prev now =
    enabled cfg
    && (chord_rising prev now cfg.clear_buttons
        && (not (pressed now cfg.deadman_button)
            && (not (pressed now cfg.estop_button) && not (pressed now cfg.estop_button_alt))))

-- Returns the state, the action and whether motion is allowed.
unfoldable pub operator_estop_step :
    OperatorEstopConfig
    → OperatorEstopState
    → List ℤ
    → List Float
    → OperatorEstopState × EstopAction × Bool
unfolding operator_estop_config_error engages releases is_neutral rising
operator_estop_step cfg s buttons axes =
    let prev = s.prev_buttons in
    let neutral_seen = s.neutral_seen || (not s.latched && is_neutral axes cfg) in
    let armed =
      s.armed || (not s.latched && (neutral_seen && rising prev buttons cfg.deadman_button)) in
    if operator_estop_config_error cfg (some buttons)
    then (
      record s { armed = false; neutral_seen = false; prev_buttons = some buttons },
      none_action,
      false,
    )
    else if engages cfg prev buttons
    then (
      record { latched = true; neutral_seen = false; armed = false; prev_buttons = some buttons },
      engage,
      false,
    )
    else if s.latched && releases cfg prev buttons
    then (
      record { latched = false; neutral_seen = false; armed = false; prev_buttons = some buttons },
      clear,
      false,
    )
    else (
      record {
        latched = s.latched;
        neutral_seen = neutral_seen;
        armed = armed;
        prev_buttons = some buttons;
      },
      none_action,
      not s.latched && armed,
    )

-- A stale stream: the latch and the last buttons stay.
unfoldable pub operator_estop_disarm : OperatorEstopState → OperatorEstopState
operator_estop_disarm s = record s { armed = false; neutral_seen = false }
