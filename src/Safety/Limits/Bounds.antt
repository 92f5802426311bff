-- ===== src/Safety/Limits/Bounds.antt =====
-- Bounds of the velocity clamp and of the battery percentage.
use miniature_warehouse_robo.Base.{
  ℕ, ◌≤◌, ◌*◌, String, ◌≡◌, refl, true, false, none, some, ◌==◌, arith, ◌⊎◌, inl, inr, Bool-cases,
  ltb,
}
use miniature_warehouse_robo.Base.Int.{ℤ, pos, negsuc, pos_part, neg_part, sub_ℕ, -ℤ_parts}
use miniature_warehouse_robo.Base.Float.{
  Float, nan, inf, neg_inf, fin, units, is_finite, flt, fle, fneg, fzero,
}
use miniature_warehouse_robo.Safety.Limits.{
  clamp_velocity, battery_allows_new_task, battery_is_critical, battery_scale_percent,
  clamp_percent, round_half_even, battery_scale_fraction, normalize_battery_percent,
  validate_battery_scale,
}

-- For every request, NaN and the infinities included, and every finite cap that is not negative, the
-- clamped velocity lies between minus the cap and the cap, and clamping it again changes nothing.
pub clamp_velocity_bounds :
    (v : Float) (c : ℤ)
    → fle fzero (fin c) ≡ true
    → (fle (fneg (fin c)) (clamp_velocity v (fin c)) ≡ true)
      × (fle (clamp_velocity v (fin c)) (fin c) ≡ true)
      × (clamp_velocity (clamp_velocity v (fin c)) (fin c) ≡ clamp_velocity v (fin c))
unfolding clamp_velocity fle fneg
clamp_velocity_bounds (fin a) c h =
    let e = -ℤ_parts (pos 0) c in (ground (arith, e), ground (arith, e), ground (arith, e))
clamp_velocity_bounds _ c h =
    let e = -ℤ_parts (pos 0) c in (ground (arith, e), ground (arith, e), ground (arith, e))

clamp_percent-le : (a : ℤ) → (n : ℕ) × (clamp_percent (fin a) ≡ units n) × (n ≤ 100)
unfolding clamp_percent
clamp_percent-le (pos n) = elim (Bool-cases (ltb (round_half_even n) 100)) [
  | inl low ↦ (round_half_even n, rw low, ground arith)
  | inr high ↦ (100, rw high, omega arith)
]
clamp_percent-le (negsuc n) = (0, refl, omega arith)

-- Under a scale that passes validation at startup, a reading has a percentage exactly if it is
-- finite, and the percentage is a whole number from 0 to 100.
pub normalize-total :
    (raw : Float) (scale : String) {s : String}
    → validate_battery_scale scale ≡ some s
    → ((is_finite raw ≡ false) × (normalize_battery_percent raw scale ≡ none))
      ⊎ ((n : ℕ) × (normalize_battery_percent raw scale ≡ some (units n)) × (n ≤ 100))
unfolding normalize_battery_percent validate_battery_scale is_finite
normalize-total (fin a) scale h = elim (Bool-cases (scale == battery_scale_fraction)) [
  | inl fraction ↦
      let (n, e, l) = clamp_percent-le (sub_ℕ (pos_part a * 100) (neg_part a * 100)) in
      inr (n, rw (fraction, e), l)
  | inr other ↦ elim (Bool-cases (scale == battery_scale_percent)) [
    | inl percent ↦ let (n, e, l) = clamp_percent-le a in inr (n, rw (other, percent, e), l)
    | inr unknown ↦ ground arith
  ]
]
normalize-total _ scale h = inl (refl, refl)

-- A battery that a driver reports as a fraction from 0 to 1, read at the default percent scale, is
-- critical: the wrong scale can stop a robot, and cannot hide an empty battery.
pub fraction_as_percent_critical :
    (raw : Float)
    → fle fzero raw ≡ true
    → fle raw (units 1) ≡ true
    → (p : Float) × (normalize_battery_percent raw battery_scale_percent ≡ some p)
      × (battery_is_critical p ≡ true)
      × (battery_allows_new_task p ≡ false)
unfolding normalize_battery_percent battery_is_critical battery_allows_new_task fle flt
fraction_as_percent_critical (fin (pos n)) h k =
    (clamp_percent (fin (pos n)), refl, ground arith, ground arith)
fraction_as_percent_critical (fin (negsuc n)) h k = (units 0, refl, refl, refl)
fraction_as_percent_critical nan h k = absurd (ground arith)
fraction_as_percent_critical inf h k = absurd (ground arith)
fraction_as_percent_critical neg_inf h k = absurd (ground arith)

-- A critical battery takes no new task.
pub critical_takes_no_task :
    (pct : Float) → battery_is_critical pct ≡ true → battery_allows_new_task pct ≡ false
unfolding battery_is_critical battery_allows_new_task fle flt
critical_takes_no_task pct h = ground arith
