-- ===== src/Safety/Motion/Growth.antt =====
-- What one odometry sample does to the accumulators of `PoseGateTracker`.
use miniature_warehouse_robo.Base.{
  String, ◌≡◌, true, Option, none, some, ◌==◌, arith, Bool-cases, inl, inr,
}
use miniature_warehouse_robo.Base.Dict
use miniature_warehouse_robo.Base.Dict.{Dict, get-put, get-pop}
use miniature_warehouse_robo.Base.Float.{
  Float, is_finite, fle, fsub, fabs, fzero, is_finite-fsub, fabs-nonneg,
}
use miniature_warehouse_robo.Safety.Guard.{distance}
use miniature_warehouse_robo.Safety.Motion.Totals.{
  IsNonneg, IsBelow, IsBelow-put, IsBelow-set_default, IsNonneg-of-IsBelow,
}
use miniature_warehouse_robo.Safety.Motion.{
  MathLib, PoseGateTracker, get_or, wrap_angle, accumulate, on_odom, sample_is_finite,
}

-- What the documentation of `math` says of finite arguments.
pub record MathLaws (m : MathLib) : Type 0 where
  pub hypot_nonneg :
      (x y : Float) → is_finite x ≡ true → is_finite y ≡ true → fle fzero (m.hypot x y) ≡ true
  pub sin_finite : (x : Float) → is_finite x ≡ true → is_finite (m.sin x) ≡ true
  pub cos_finite : (x : Float) → is_finite x ≡ true → is_finite (m.cos x) ≡ true
  pub atan2_finite :
      (y x : Float) → is_finite y ≡ true → is_finite x ≡ true → is_finite (m.atan2 y x) ≡ true

-- The travel and the turn since the last pose.
abbrev pub travel : PoseGateTracker → String → Float
travel g bot = get_or g.disp bot fzero

abbrev pub turn : PoseGateTracker → String → Float
turn g bot = get_or g.dyaw bot fzero

abbrev pub LastIsFinite : Option (Float × Float × Float) → Type 0
LastIsFinite none = Unit {0}
LastIsFinite (some (x, y, yaw)) =
    (is_finite x ≡ true) × (is_finite y ≡ true) × (is_finite yaw ≡ true)

-- No total is negative, and the last sample of each robot is finite.
pub record IsSound (g : PoseGateTracker) : Type 0 where
  pub travel_nonneg : IsNonneg g.disp
  pub turn_nonneg : IsNonneg g.dyaw
  pub last_finite : (bot : String) → LastIsFinite (Dict.get g.last bot)

LastIsFinite-put :
    (d : Dict (Float × Float × Float)) (k : String) (x y yaw : Float)
    → is_finite x ≡ true
    → is_finite y ≡ true
    → is_finite yaw ≡ true
    → ((j : String) → LastIsFinite (Dict.get d j))
    → (j : String) → LastIsFinite (Dict.get (Dict.put d k (x, y, yaw)) j)
LastIsFinite-put d k x y yaw p q r h j =
    rw get-put
      (elim (Bool-cases (k == j)) [ inl same ↦ rw same (p, q, r) | inr other ↦ rw other (h j) ])

module _ (m : MathLib) (laws : MathLaws m) where
  distance_nonneg :
      (ax ay bx by : Float)
      → is_finite ax ≡ true
      → is_finite ay ≡ true
      → is_finite bx ≡ true
      → is_finite by ≡ true
      → fle fzero (distance m.hypot ax ay bx by) ≡ true
  unfolding distance
  distance_nonneg ax ay bx by p q r s =
      laws.hypot_nonneg (fsub ax bx) (fsub ay by) (is_finite-fsub ax bx p r)
        (is_finite-fsub ay by q s)

  turn_step_nonneg :
      (a b : Float)
      → is_finite a ≡ true
      → is_finite b ≡ true
      → fle fzero (fabs (wrap_angle m (fsub a b))) ≡ true
  unfolding wrap_angle
  turn_step_nonneg a b p q =
      let f = is_finite-fsub a b p q in
      fabs-nonneg (m.atan2 (m.sin (fsub a b)) (m.cos (fsub a b))) (
        laws.atan2_finite (m.sin (fsub a b)) (m.cos (fsub a b)) (laws.sin_finite (fsub a b) f)
          (laws.cos_finite (fsub a b) f))

  -- One finite sample lowers no total, and keeps the tracker sound.
  accumulate-grows :
      (g : PoseGateTracker) (bot : String) (prev : Option (Float × Float × Float)) (x y yaw : Float)
      → IsSound g
      → LastIsFinite prev
      → is_finite x ≡ true
      → is_finite y ≡ true
      → is_finite yaw ≡ true
      → IsBelow g.disp (accumulate m g bot prev x y yaw).disp
        × IsBelow g.dyaw (accumulate m g bot prev x y yaw).dyaw
  unfolding accumulate
  accumulate-grows g bot none x y yaw s l p q r =
      (IsBelow-set_default g.disp bot s.travel_nonneg, IsBelow-set_default g.dyaw bot s.turn_nonneg)
  accumulate-grows g bot (some (px, py, pyaw)) x y yaw s l p q r = (
    IsBelow-put g.disp bot (distance m.hypot px py x y) s.travel_nonneg
        (distance_nonneg px py x y l.0 l.1 p q),
    IsBelow-put g.dyaw bot (fabs (wrap_angle m (fsub yaw pyaw))) s.turn_nonneg
        (turn_step_nonneg yaw pyaw r l.2),
  )

  pub on_odom-grows :
      (g : PoseGateTracker) (bot : String) (x y yaw now : Float)
      → IsSound g
      → sample_is_finite x y yaw now ≡ true
      → IsSound (on_odom m g bot x y yaw now)
        × IsBelow g.disp (on_odom m g bot x y yaw now).disp
        × IsBelow g.dyaw (on_odom m g bot x y yaw now).dyaw
  unfolding on_odom
  on_odom-grows g bot x y yaw now s f =
      let (p, q, r) : (is_finite x ≡ true) × (is_finite y ≡ true) × (is_finite yaw ≡ true) =
        (ground arith, ground arith, ground arith) in
      let (up, round) =
        accumulate-grows g bot (Dict.get g.last bot) x y yaw s (s.last_finite bot) p q r in
      rw f (
        record {
          travel_nonneg = IsNonneg-of-IsBelow _ _ s.travel_nonneg up;
          turn_nonneg = IsNonneg-of-IsBelow _ _ s.turn_nonneg round;
          last_finite = LastIsFinite-put g.last bot x y yaw p q r s.last_finite;
        },
        up,
        round,
      )
