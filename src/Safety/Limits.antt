-- ===== src/Safety/Limits.antt =====
-- ws/src/warehouse_interfaces/warehouse_interfaces/safety.py: the hard caps, the velocity clamp and
-- the battery scale. `none` stands for the `ValueError` that the source raises.
pub mod Bounds
use Prim.Native.Nat.{ℕ, ◌+◌, ◌*◌, ◌/◌, ◌%◌}
use miniature_warehouse_robo.Base.{
  String, Bool, true, false, not, Option, none, some, ◌&&◌, ◌||◌, ◌==◌, ltb, eqb, if◌then◌else◌,
}
use miniature_warehouse_robo.Base.Int.{pos, negsuc, pos_part, neg_part, sub_ℕ}
use miniature_warehouse_robo.Base.Float.{
  Float, nan, inf, neg_inf, fin, micro, units, is_finite, flt, fle, fneg, fzero,
}

-- 0.3 m/s
abbrev pub max_linear_velocity : Float
max_linear_velocity = micro 300_000

abbrev pub battery_critical_pct : Float
battery_critical_pct = units 10

abbrev pub battery_low_pct : Float
battery_low_pct = units 20

-- Python's `min(a, b)` and `max(a, b)` keep the first of two that compare equal.
unfoldable pub fmin : Float → Float → Float
unfolding flt
fmin a b = if flt b a then b else a

fmax : Float → Float → Float
unfolding flt
fmax a b = if flt a b then b else a

pub clamp_velocity : Float → Float → Float
unfolding fmin fmax is_finite fneg
clamp_velocity v max_speed =
    if not (is_finite v) then fzero else fmax (fneg max_speed) (fmin v max_speed)

unfoldable pub battery_allows_new_task : Float → Bool
battery_allows_new_task pct = flt battery_low_pct pct

unfoldable pub battery_is_critical : Float → Bool
battery_is_critical pct = fle pct battery_critical_pct

abbrev pub battery_scale_percent : String
battery_scale_percent = "percent"

abbrev pub battery_scale_fraction : String
battery_scale_fraction = "fraction"

-- raw * 100.0
times_hundred : Float → Float
times_hundred nan = nan
times_hundred inf = inf
times_hundred neg_inf = neg_inf
times_hundred (fin a) = fin (sub_ℕ (pos_part a * 100) (neg_part a * 100))

-- Python's `round` of n millionths, n ≥ 0: to the nearest, halves to the even neighbour.
pub round_half_even : ℕ → ℕ
round_half_even n =
    let q = n / 1_000_000 in
    let r = n % 1_000_000 in
    if ltb r 500_000 then q else if ltb 500_000 r then q + 1 else if eqb (q % 2) 0 then q else q + 1

-- max(0, min(100, round(scaled))): a negative number rounds to at most 0, and is clamped to 0.
pub clamp_percent : Float → Float
unfolding round_half_even
clamp_percent (fin (pos n)) = let q = round_half_even n in if ltb q 100 then units q else units 100
clamp_percent (fin (negsuc n)) = units 0
clamp_percent x = x

unfoldable pub normalize_battery_percent : Float → String → Option Float
unfolding is_finite times_hundred clamp_percent
normalize_battery_percent raw scale =
    if not (is_finite raw)
    then none
    else if scale == battery_scale_fraction
    then some (clamp_percent (times_hundred raw))
    else if scale == battery_scale_percent
    then some (clamp_percent raw)
    else none

unfoldable pub validate_battery_scale : String → Option String
validate_battery_scale scale =
    if scale == battery_scale_percent || scale == battery_scale_fraction then some scale else none
