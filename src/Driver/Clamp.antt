-- ===== src/Driver/Clamp.antt =====
-- clamp.py of ws/src/warehouse_m1_driver/warehouse_m1_driver: the clamp of the planar velocity.
-- The rounding arithmetic of Python's floats is a parameter: `math.hypot`, `*` and `/`.
use miniature_warehouse_robo.Base.{
  ◌≡◌, refl, true, false, not, ◌&&◌, ◌||◌, arith, if◌then◌else◌, Bool-cases, inl, inr, if_elim,
}
use miniature_warehouse_robo.Base.Float.{Float, is_finite, flt, fle, fzero}
use miniature_warehouse_robo.Safety.Limits.{max_linear_velocity}

pub record Arithmetic : Type 0 where
  pub hypot : Float → Float → Float
  pub mul : Float → Float → Float
  pub div : Float → Float → Float

module _ (a : Arithmetic) where
  -- The vector times a factor, that one repaired once, or a stop.
  abbrev repaired : Float → Float → Float → Float × Float
  repaired x y max_magnitude =
      let repair = a.div max_magnitude (a.hypot x y) in
      let rx = a.mul x repair in
      let ry = a.mul y repair in
      if flt max_magnitude (a.hypot x y)
      then (if flt max_magnitude (a.hypot rx ry) then (fzero, fzero) else (rx, ry))
      else (x, y)

  unfoldable pub scale_to_magnitude : Float → Float → Float → Float × Float
  unfolding is_finite fle flt
  scale_to_magnitude vx vy max_magnitude =
      let magnitude = a.hypot vx vy in
      let scale = a.div max_magnitude magnitude in
      if not (is_finite vx) || not (is_finite vy)
      then (fzero, fzero)
      else if not (is_finite max_magnitude) || fle max_magnitude fzero
      then (fzero, fzero)
      else if not (is_finite magnitude)
      then (fzero, fzero)
      else if fle magnitude max_magnitude
      then (vx, vy)
      else repaired (a.mul vx scale) (a.mul vy scale) max_magnitude

  unfoldable pub clamp_body_velocity : Float → Float → Float → Float × Float × Float
  unfolding is_finite scale_to_magnitude
  clamp_body_velocity vx vy wz =
      let (cx, cy) = scale_to_magnitude vx vy max_linear_velocity in
      if not (is_finite vx && (is_finite vy && is_finite wz))
      then (fzero, fzero, fzero)
      else (cx, cy, wz)

Bounded : Arithmetic → Float → Float × Float → Type 0
Bounded a ceiling v = flt ceiling (a.hypot v.0 v.1) ≡ false

Bounded-of_le :
    (a : Arithmetic) (x y ceiling : Float)
    → fle (a.hypot x y) ceiling ≡ true
    → Bounded a ceiling (x, y)
unfolding Bounded fle flt
Bounded-of_le a x y ceiling h = ground arith

Bounded-repaired :
    (a : Arithmetic) (x y ceiling : Float)
    → Bounded a ceiling (fzero, fzero)
    → Bounded a ceiling (repaired a x y ceiling)
unfolding Bounded
Bounded-repaired a x y ceiling zero =
    if_elim (Bounded a ceiling) _ _ (x, y)
      (λ above. if_elim (Bounded a ceiling) _ (fzero, fzero) _ (λ still. zero) (λ within. within))
      (λ within. within)

Bounded-scale :
    (a : Arithmetic) (vx vy ceiling : Float)
    → Bounded a ceiling (fzero, fzero)
    → Bounded a ceiling (scale_to_magnitude a vx vy ceiling)
unfolding scale_to_magnitude
Bounded-scale a vx vy ceiling zero =
    let scale = a.div ceiling (a.hypot vx vy) in
    ground (
      arith,
      Bounded-of_le a vx vy ceiling,
      Bounded-repaired a (a.mul vx scale) (a.mul vy scale) ceiling zero,
    )

stopped :
    (a : Arithmetic) (vx vy wz : Float)
    → (is_finite vx && (is_finite vy && is_finite wz)) ≡ false
    → clamp_body_velocity a vx vy wz ≡ (fzero, fzero, fzero)
unfolding clamp_body_velocity
stopped a vx vy wz unknown = rw unknown refl

scaled :
    (a : Arithmetic) (vx vy wz : Float)
    → (is_finite vx && (is_finite vy && is_finite wz)) ≡ true
    → let v = scale_to_magnitude a vx vy max_linear_velocity in
      clamp_body_velocity a vx vy wz ≡ (v.0, v.1, wz)
unfolding clamp_body_velocity
scaled a vx vy wz known = rw known refl

bounded :
    (a : Arithmetic) (vx vy wz : Float)
    → a.hypot fzero fzero ≡ fzero
    → let out = clamp_body_velocity a vx vy wz in Bounded a max_linear_velocity (out.0, out.1)
unfolding Bounded
bounded a vx vy wz zero =
    let still : Bounded a max_linear_velocity (fzero, fzero) = rw zero (unfold flt in refl) in
    elim (Bool-cases (is_finite vx && (is_finite vy && is_finite wz))) [
      | inl known ↦ rw (scaled a vx vy wz known) (Bounded-scale a vx vy max_linear_velocity still)
      | inr unknown ↦ rw (stopped a vx vy wz unknown) still
    ]

within_unchanged :
    (a : Arithmetic) (vx vy wz : Float)
    → (is_finite vx && (is_finite vy && is_finite wz)) ≡ true
    → is_finite (a.hypot vx vy) ≡ true
    → fle (a.hypot vx vy) max_linear_velocity ≡ true
    → clamp_body_velocity a vx vy wz ≡ (vx, vy, wz)
unfolding clamp_body_velocity scale_to_magnitude is_finite
within_unchanged a vx vy wz known finite within =
    let fx : is_finite vx ≡ true = ground arith in
    let fy : is_finite vy ≡ true = ground arith in rw (known, fx, fy, finite, within) (refl)

-- The vector that is sent is never above the cap, whatever the products and quotients round to; one that
-- is finite and within the cap is sent unchanged, with the turn rate; and a component that is no number
-- stops the whole command. The magnitude of the zero vector is taken to be zero.
pub clamp_body_velocity-bounded :
    (a : Arithmetic) (vx vy wz : Float)
    → a.hypot fzero fzero ≡ fzero
    → let out = clamp_body_velocity a vx vy wz in
      let known = is_finite vx && (is_finite vy && is_finite wz) in
      let within = is_finite (a.hypot vx vy) && fle (a.hypot vx vy) max_linear_velocity in
      (flt max_linear_velocity (a.hypot out.0 out.1) ≡ false)
      × (out ≡ (if known && within then (vx, vy, wz) else out))
      × (out ≡ (if known then out else (fzero, fzero, fzero)))
unfolding Bounded
clamp_body_velocity-bounded a vx vy wz zero = (
  bounded a vx vy wz zero,
  if_elim (λ v. clamp_body_velocity a vx vy wz ≡ v) _ (vx, vy, wz) _
      (λ both. within_unchanged a vx vy wz (ground arith) (ground arith) (ground arith))
      (λ other. refl),
  if_elim (λ v. clamp_body_velocity a vx vy wz ≡ v) _ _ (fzero, fzero, fzero) (λ known. refl)
      (stopped a vx vy wz),
)
