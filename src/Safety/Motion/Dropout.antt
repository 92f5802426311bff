-- ===== src/Safety/Motion/Dropout.antt =====
-- An odometry sample that is not finite releases the displacement gate.
use miniature_warehouse_robo.Base.{String, ◌≡◌, true, false, none, some, eq_iff, arith}
use miniature_warehouse_robo.Base.Dict
use miniature_warehouse_robo.Base.Dict.{Dict, get-put, get-pop}
use miniature_warehouse_robo.Base.Float.{Float, fabs, is_finite, flt, fle, fzero, fsub_self}
use miniature_warehouse_robo.Safety.Guard.{BotState, gate_exceeded, pose_gate_open}
use miniature_warehouse_robo.Safety.Motion.{
  MathLib, PoseGateTracker, set_default, forget, accumulate, on_odom, odom_is_fresh, snapshot,
  sample_is_finite,
}
use miniature_warehouse_robo.Safety.Motion.Travel.{with_snapshot}

set_default-pop :
    (d : Dict Float) (k : String) → Dict.get (set_default (Dict.pop d k) k fzero) k ≡ some fzero
set_default-pop d k = ground (arith, get-pop d k k, get-put (Dict.pop d k) k k fzero, eq_iff k k)

fresh_now :
    (t stale_after : Float)
    → is_finite t ≡ true
    → is_finite stale_after ≡ true
    → fle fzero stale_after ≡ true
    → odom_is_fresh (some t) t stale_after ≡ true
unfolding odom_is_fresh fle
fresh_now t stale_after f sf sn = rw (sf, fsub_self t f) sn

dropout_snapshot :
    (m : MathLib) (g : PoseGateTracker) (bot : String) (x y yaw t x' y' yaw' t' stale_after : Float)
    → sample_is_finite x y yaw t ≡ false
    → sample_is_finite x' y' yaw' t' ≡ true
    → is_finite stale_after ≡ true
    → fle fzero stale_after ≡ true
    → snapshot (on_odom m (on_odom m g bot x y yaw t) bot x' y' yaw' t') bot t' stale_after
      ≡ (some fzero, some fzero)
unfolding on_odom snapshot forget
dropout_snapshot m g bot x y yaw t x' y' yaw' t' stale_after bad good sf sn =
    let gone : Dict.get (Dict.pop g.last bot) bot ≡ none =
      ground (arith, get-pop g.last bot bot, eq_iff bot bot) in
    let stamped : Dict.get (Dict.put (Dict.pop g.odom_t bot) bot t') bot ≡ some t' =
      ground (arith, get-put (Dict.pop g.odom_t bot) bot bot t', eq_iff bot bot) in
    rw (bad, good, gone)
      (unfold accumulate in
        rw (stamped, fresh_now t' stale_after (ground arith) sf sn)
          (cc (set_default-pop g.disp bot, set_default-pop g.dyaw bot)))

closed_at_zero :
    (b : BotState) (motion angular : Float)
    → is_finite motion ≡ true
    → is_finite angular ≡ true
    → flt motion fzero ≡ false
    → flt angular fzero ≡ false
    → pose_gate_open
        (record b { odom_disp_since_pose = some fzero; odom_dyaw_since_pose = some fzero })
        (some motion)
        (some angular)
      ≡ false
unfolding pose_gate_open gate_exceeded fabs is_finite
closed_at_zero b motion angular mf af mn an = ground arith

-- After a sample with a part that is not finite, the next finite sample leaves both totals of that
-- robot at zero and fresh, whatever it had travelled since its last pose: with epsilons that are not
-- negative the gate is closed, although no pose has arrived.
pub dropout_closes_gate :
    (m : MathLib) (g : PoseGateTracker) (b : BotState) (bot : String)
    (x y yaw t x' y' yaw' t' stale_after motion angular : Float)
    → sample_is_finite x y yaw t ≡ false
    → sample_is_finite x' y' yaw' t' ≡ true
    → is_finite stale_after ≡ true
    → fle fzero stale_after ≡ true
    → is_finite motion ≡ true
    → is_finite angular ≡ true
    → flt motion fzero ≡ false
    → flt angular fzero ≡ false
    → let g' = on_odom m (on_odom m g bot x y yaw t) bot x' y' yaw' t' in
      (snapshot g' bot t' stale_after ≡ (some fzero, some fzero))
      × (pose_gate_open (with_snapshot b g' bot t' stale_after) (some motion) (some angular)
          ≡ false)
dropout_closes_gate m g b bot x y yaw t x' y' yaw' t' stale_after motion angular bad good sf sn mf
      af mn an =
    let e = dropout_snapshot m g bot x y yaw t x' y' yaw' t' stale_after bad good sf sn in
    (e, rw e (closed_at_zero b motion angular mf af mn an))
