-- ===== src/Driver/Witnesses.antt =====
-- The theorems on the driver at concrete inputs, with a decimal arithmetic, and tests of the code.
use miniature_warehouse_robo.Base.{
  ℕ, zero, suc, ◌+◌, ◌*◌, ◌/◌, ◌^◌, ◌≡◌, refl, String, Bool, true, false, not, Option, none, some,
  List, [], ◌∷◌, ◌==◌, ◌&&◌, ◌⊎◌, leb, if◌then◌else◌,
}
use miniature_warehouse_robo.Base.Int.{pos, ◌+ℤ◌}
use miniature_warehouse_robo.Base.Float.{
  Float, nan, fin, micro, units, is_finite, flt, fle, fadd, fsub, fzero,
}
use miniature_warehouse_robo.Base.Json.{Json, bool, num, obj, field, end, member}
use miniature_warehouse_robo.Safety.Limits.{max_linear_velocity, fmin}
use miniature_warehouse_robo.Driver.Clamp.{
  Arithmetic, clamp_body_velocity, scale_to_magnitude, clamp_body_velocity-bounded,
}
use miniature_warehouse_robo.Driver.Core.{
  velocity, brake, fresh, new_core, on_cmd_vel, on_stop_state, on_watchdog_tick, overlay_blocks,
  to_wire, lateral, positive_or_default,
}
use miniature_warehouse_robo.Driver.StopState.{
  decode_stop_state, loads_no_duplicate_keys, repeats_key, revoke,
}
use miniature_warehouse_robo.Driver.StopState.Contract.{
  IsContracted, horizon, decode_stop_state-contract,
}
use miniature_warehouse_robo.Driver.Node.{
  Setup, Event, cmd_vel, stop_state, watchdog, started, handle, core_after,
}
use miniature_warehouse_robo.Driver.Node.History.{commanded}
use miniature_warehouse_robo.Driver.Node.Runs.{
  IsAllowed, permitted, moves_only_permitted, handle-watchdog,
}

-- The square root of n, bit by bit.
abbrev root : ℕ → ℕ → ℕ → ℕ
root zero r n = r
root (suc k) r n = let c = r + 2 ^ k in root k (if leb (c * c) n then c else r) n

abbrev decimal_hypot : Float → Float → Float
decimal_hypot (fin (pos a)) (fin (pos b)) = micro (root 32 0 (a * a + b * b))
decimal_hypot x y = nan

abbrev decimal_mul : Float → Float → Float
decimal_mul (fin (pos a)) (fin (pos b)) = micro (a * b / 1_000_000)
decimal_mul x y = nan

abbrev decimal_div : Float → Float → Float
decimal_div (fin (pos a)) (fin (pos (suc b))) = micro (a * 1_000_000 / suc b)
decimal_div x y = nan

abbrev decimal : Arithmetic
decimal = record { hypot = decimal_hypot; mul = decimal_mul; div = decimal_div }

diagonal_is_scaled :
    clamp_body_velocity decimal (micro 300_000) (micro 400_000) fzero
    ≡ (micro 180_000, micro 240_000, fzero)
unfolding clamp_body_velocity scale_to_magnitude is_finite fle flt
diagonal_is_scaled = refl

clamp_body_velocity-bounded_example :
    let out = clamp_body_velocity decimal (units 3) nan fzero in
    let known = is_finite (units 3) && (is_finite nan && is_finite fzero) in
    let magnitude = decimal.hypot (units 3) nan in
    let within = is_finite magnitude && fle magnitude max_linear_velocity in
    (flt max_linear_velocity (decimal.hypot out.0 out.1) ≡ false)
    × (out ≡ (if known && within then (units 3, nan, fzero) else out))
    × (out ≡ (if known then out else (fzero, fzero, fzero)))
clamp_body_velocity-bounded_example = clamp_body_velocity-bounded decimal (units 3) nan fzero refl

-- A state without a stop, valid until 1.4 s, a stop, and one that says both.
abbrev loads : String → Option Json
loads raw =
    if raw == "go"
    then some (
        obj (field "stop_requested" (bool false) (field "valid_until" (num (micro 1_400_000)) end)))
    else if raw == "stop"
    then some (obj (field "stop_requested" (bool true) (field "valid_until" (num (units 2)) end)))
    else if raw == "both"
    then some (
        obj (
          field "stop_requested" (bool true)
            (field "stop_requested" (bool false) (field "valid_until" (num (units 2)) end))))
    else none

abbrev setup : Setup
setup = record {
  arithmetic = decimal;
  loads = loads;
  cmd_vel_timeout_s = micro 500_000;
  stop_overlay_enabled = true;
  stop_state_max_validity_s = micro 500_000;
  wheel_scale = units 2;
  yaw_scale = units 1;
  lateral_enabled = true;
}

repeated_key_revokes : decode_stop_state loads "both" (units 1) (micro 500_000) ≡ revoke
unfolding decode_stop_state loads_no_duplicate_keys repeats_key member
repeated_key_revokes = refl

decode_stop_state-contract_example :
    let decoded = decode_stop_state loads "go" (units 1) (micro 500_000) in
    ((b : Bool) × (v : Float) × IsContracted loads "go" b v
      × (decoded ≡ (b, fmin v (horizon (units 1) (micro 500_000)))))
    ⊎ (((b : Bool) (v : Float) → ¬ IsContracted loads "go" b v) × (decoded ≡ revoke))
decode_stop_state-contract_example = decode_stop_state-contract loads "go" (units 1) (micro 500_000)

abbrev past : List Event
past = watchdog (micro 1_100_000) ∷ stop_state "go" (units 1) ∷ stop_state "garbage" fzero ∷ []

abbrev now : Float
now = micro 1_200_000

moves :
    (handle setup (core_after setup past) (cmd_vel (micro 300_000) (micro 400_000) fzero now)).1
    ≡ velocity (micro 90_000) (micro 120_000) fzero ∷ []
unfolding handle core_after started new_core on_cmd_vel on_stop_state on_watchdog_tick
    overlay_blocks to_wire lateral clamp_body_velocity scale_to_magnitude decode_stop_state
    loads_no_duplicate_keys repeats_key member positive_or_default fmin is_finite fle flt fadd fsub
    ◌+ℤ◌
moves = refl

moves_only_permitted_example :
    IsAllowed setup past now (velocity (micro 90_000) (micro 120_000) fzero)
moves_only_permitted_example =
    moves_only_permitted setup past (micro 300_000) (micro 400_000) fzero now (micro 90_000)
      (micro 120_000) fzero refl refl moves

handle-watchdog_example : (handle setup (core_after setup past) (watchdog now)).1 ≡ (
    if not (started setup).config_error
      && (fresh (commanded past) (started setup).cmd_timeout_s now && permitted setup past now)
    then []
    else brake ∷ [])
handle-watchdog_example = handle-watchdog setup past now
