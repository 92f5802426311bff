-- ===== src/Base/Float.antt =====
-- Python's floats: a finite one is a whole number of millionths, beside the two infinities and NaN.
-- Orders are those of IEEE 754 (every comparison with NaN is false); sums are not rounded.
use Prim.Native.Nat.{ℕ, ◌*◌}
use mathlib.Core.Path.{◌≡◌, refl, ap}
use mathlib.Core.Bool.{Bool, true, false, not}
use native.Mathlib.Omega.{arith}
use miniature_warehouse_robo.Base.Tests.{if◌then◌else◌}
use miniature_warehouse_robo.Base.Int.{
  ℤ, pos, ◌+ℤ◌, ◌-ℤ◌, ltb_ℤ, leb_ℤ, +ℤ_parts, -ℤ_parts, int_laws,
}

pub data Float : Type 0 where
  nan inf neg_inf : Float
  fin : ℤ → Float

-- `micro n` is n millionths, `units n` is n.
abbrev pub micro : ℕ → Float
micro n = fin (pos n)

abbrev pub units : ℕ → Float
units n = fin (pos (n * 1_000_000))

unfoldable pub is_finite : Float → Bool
is_finite (fin a) = true
is_finite nan = false
is_finite inf = false
is_finite neg_inf = false

unfoldable pub is_nan : Float → Bool
is_nan nan = true
is_nan (fin a) = false
is_nan inf = false
is_nan neg_inf = false

-- x < y. The source's `x > y` is `flt y x`.
unfoldable pub flt : Float → Float → Bool
flt nan y = false
flt inf y = false
flt neg_inf nan = false
flt neg_inf neg_inf = false
flt neg_inf inf = true
flt neg_inf (fin b) = true
flt (fin a) nan = false
flt (fin a) neg_inf = false
flt (fin a) inf = true
flt (fin a) (fin b) = ltb_ℤ a b

-- x ≤ y. The source's `x >= y` is `fle y x`.
unfoldable pub fle : Float → Float → Bool
fle nan y = false
fle inf nan = false
fle inf neg_inf = false
fle inf inf = true
fle inf (fin b) = false
fle neg_inf nan = false
fle neg_inf neg_inf = true
fle neg_inf inf = true
fle neg_inf (fin b) = true
fle (fin a) nan = false
fle (fin a) neg_inf = false
fle (fin a) inf = true
fle (fin a) (fin b) = leb_ℤ a b

unfoldable pub fneg : Float → Float
fneg nan = nan
fneg inf = neg_inf
fneg neg_inf = inf
fneg (fin a) = fin (pos 0 -ℤ a)

unfoldable pub fadd : Float → Float → Float
fadd nan y = nan
fadd inf nan = nan
fadd inf neg_inf = nan
fadd inf inf = inf
fadd inf (fin b) = inf
fadd neg_inf nan = nan
fadd neg_inf inf = nan
fadd neg_inf neg_inf = neg_inf
fadd neg_inf (fin b) = neg_inf
fadd (fin a) nan = nan
fadd (fin a) inf = inf
fadd (fin a) neg_inf = neg_inf
fadd (fin a) (fin b) = fin (a +ℤ b)

unfoldable pub fsub : Float → Float → Float
fsub nan y = nan
fsub inf nan = nan
fsub inf inf = nan
fsub inf neg_inf = inf
fsub inf (fin b) = inf
fsub neg_inf nan = nan
fsub neg_inf neg_inf = nan
fsub neg_inf inf = neg_inf
fsub neg_inf (fin b) = neg_inf
fsub (fin a) nan = nan
fsub (fin a) inf = neg_inf
fsub (fin a) neg_inf = inf
fsub (fin a) (fin b) = fin (a -ℤ b)

unfoldable pub fabs : Float → Float
unfolding fneg flt
fabs x = if flt x (fin (pos 0)) then fneg x else x

-- 0.0
abbrev pub fzero : Float
fzero = fin (pos 0)

pub flt-fle_trans : (x y z : Float) → flt x y ≡ true → fle y z ≡ true → flt x z ≡ true
unfolding flt fle
flt-fle_trans x y z h k = ground arith

pub fle_trans : (x y z : Float) → fle x y ≡ true → fle y z ≡ true → fle x z ≡ true
unfolding fle
fle_trans x y z h k = ground arith

-- Adding what is not negative does not lower a number.
pub fle-fadd : (x y : Float) → fle fzero x ≡ true → fle fzero y ≡ true → fle x (fadd x y) ≡ true
unfolding fle fadd
fle-fadd nan y h k = h
fle-fadd inf nan h k = k
fle-fadd inf inf h k = refl
fle-fadd inf neg_inf h k = k
fle-fadd inf (fin b) h k = refl
fle-fadd neg_inf y h k = ground arith
fle-fadd (fin a) nan h k = k
fle-fadd (fin a) inf h k = refl
fle-fadd (fin a) neg_inf h k = k
fle-fadd (fin a) (fin b) h k = ground (arith, +ℤ_parts a b)

pub is_finite-fsub :
    (x y : Float) → is_finite x ≡ true → is_finite y ≡ true → is_finite (fsub x y) ≡ true
unfolding fsub is_finite
is_finite-fsub x y h k = ground arith

pub fsub_self : (x : Float) → is_finite x ≡ true → fsub x x ≡ fzero
unfolding fsub is_finite
fsub_self (fin a) h = ap fin (omega int_laws)
fsub_self nan h = cc
fsub_self inf h = cc
fsub_self neg_inf h = cc

pub fabs-of-nonneg : (x : Float) → fle fzero x ≡ true → fabs x ≡ x
unfolding fabs fle
fabs-of-nonneg x h = ground arith

pub fabs-nonneg : (x : Float) → is_finite x ≡ true → fle fzero (fabs x) ≡ true
unfolding fabs fle is_finite
fabs-nonneg (fin a) h = ground (arith, -ℤ_parts (pos 0) a)
fabs-nonneg nan h = cc
fabs-nonneg inf h = cc
fabs-nonneg neg_inf h = cc

-- What is not below a nonnegative number is finite or infinite upwards.
pub is_finite_of-le :
    (x y : Float) → fle fzero x ≡ true → fle x y ≡ true → is_finite x ≡ false → is_finite y ≡ false
unfolding fle is_finite
is_finite_of-le x y h k f = ground arith

pub fle-fadd_nonneg :
    (x y : Float) → fle fzero x ≡ true → fle fzero y ≡ true → fle fzero (fadd x y) ≡ true
fle-fadd_nonneg x y h k = fle_trans fzero x (fadd x y) h (fle-fadd x y h k)

pub fle_refl_nonneg : (x : Float) → fle fzero x ≡ true → fle x x ≡ true
unfolding fle
fle_refl_nonneg x h = ground arith

-- Between numbers, not below is at least.
pub not-flt : (x y : Float) → is_finite x ≡ true → is_finite y ≡ true → not (flt x y) ≡ fle y x
unfolding flt fle is_finite
not-flt x y h k = ground arith

-- What lies between two numbers is a number.
pub is_finite-between :
    (x : Float) (a b : ℤ) → fle (fin a) x ≡ true → fle x (fin b) ≡ true → is_finite x ≡ true
unfolding fle is_finite
is_finite-between x a b h k = ground arith

pub not-fle : (x y : Float) → is_finite x ≡ true → is_finite y ≡ true → not (fle x y) ≡ flt y x
unfolding flt fle is_finite
not-fle x y h k = ground arith

pub is_finite-fabs : (x : Float) → is_finite (fabs x) ≡ is_finite x
unfolding fabs fneg flt is_finite
is_finite-fabs x = ground arith
