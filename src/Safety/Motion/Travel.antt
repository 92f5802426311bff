-- ===== src/Safety/Motion/Travel.antt =====
-- The accumulators of `PoseGateTracker` as a latch, and the dropout that releases it.
use miniature_warehouse_robo.Base.{
  String, ◌≡◌, refl, Bool, true, false, some, List, [], ◌∷◌, ◌==◌, arith, all, Bool-cases, inl, inr,
}
use miniature_warehouse_robo.Base.Dict
use miniature_warehouse_robo.Base.Dict.{Dict, get-put, get-pop}
use miniature_warehouse_robo.Base.Float.{
  Float, fle, fzero, fle_refl_nonneg, fle_trans, flt-fle_trans, fabs-of-nonneg, is_finite_of-le,
}
use miniature_warehouse_robo.Safety.Guard.{BotState, gate_exceeded, pose_gate_open}
use miniature_warehouse_robo.Safety.Motion.Totals.{IsNonneg-reset, IsNonneg-pop}
use miniature_warehouse_robo.Safety.Motion.{
  MathLib, PoseGateTracker, new_pose_gate, forget, on_odom, on_pose, snapshot, sample_is_finite,
}
use miniature_warehouse_robo.Safety.Motion.Growth.{
  MathLaws, IsSound, travel, turn, LastIsFinite, on_odom-grows,
}

-- What the node feeds to the tracker.
pub data Event : Type 0 where
  odom : String → Float → Float → Float → Float → Event
  pose : String → Event

abbrev pub feed : MathLib → PoseGateTracker → Event → PoseGateTracker
feed m g (odom bot x y yaw now) = on_odom m g bot x y yaw now
feed m g (pose bot) = on_pose g bot

abbrev pub feed_all : MathLib → PoseGateTracker → List Event → PoseGateTracker
feed_all m g [] = g
feed_all m g (e ∷ es) = feed_all m (feed m g e) es

-- A finite odometry sample, of any robot.
abbrev pub is_good_odom : Event → Bool
is_good_odom (odom bot x y yaw now) = sample_is_finite x y yaw now
is_good_odom (pose bot) = false

LastIsFinite-pop :
    (d : Dict (Float × Float × Float)) (k : String)
    → ((j : String) → LastIsFinite (Dict.get d j))
    → (j : String) → LastIsFinite (Dict.get (Dict.pop d k) j)
LastIsFinite-pop d k h j =
    rw get-pop (elim (Bool-cases (k == j)) [ inl same ↦ rw same tt | inr other ↦ rw other (h j) ])

module _ (m : MathLib) (laws : MathLaws m) where
  feed-IsSound : (g : PoseGateTracker) (e : Event) → IsSound g → IsSound (feed m g e)
  feed-IsSound g (odom bot x y yaw now) s = elim (Bool-cases (sample_is_finite x y yaw now)) [
    | inl good ↦ (on_odom-grows m laws g bot x y yaw now s good).0
    | inr bad ↦
        unfold on_odom forget in
        rw bad (record {
          travel_nonneg = IsNonneg-pop g.disp bot s.travel_nonneg;
          turn_nonneg = IsNonneg-pop g.dyaw bot s.turn_nonneg;
          last_finite = LastIsFinite-pop g.last bot s.last_finite;
        })
  ]
  feed-IsSound g (pose bot) s =
      unfold on_pose in
      record {
        travel_nonneg = IsNonneg-reset g.disp bot s.travel_nonneg;
        turn_nonneg = IsNonneg-reset g.dyaw bot s.turn_nonneg;
        last_finite = s.last_finite;
      }

  feed_all-IsSound : (g : PoseGateTracker) (es : List Event) → IsSound g → IsSound (feed_all m g es)
  feed_all-IsSound g [] s = s
  feed_all-IsSound g (e ∷ es) s = feed_all-IsSound (feed m g e) es (feed-IsSound g e s)

  feed_all-grows :
      (g : PoseGateTracker) (es : List Event) (bot : String)
      → IsSound g
      → all is_good_odom es ≡ true
      → (fle (travel g bot) (travel (feed_all m g es) bot) ≡ true)
        × (fle (turn g bot) (turn (feed_all m g es) bot) ≡ true)
  unfolding all
  feed_all-grows g [] bot s good = (
    fle_refl_nonneg (travel g bot) (s.travel_nonneg bot),
    fle_refl_nonneg (turn g bot) (s.turn_nonneg bot),
  )
  feed_all-grows g (pose b ∷ es) bot s good = cc
  feed_all-grows g (odom b x y yaw now ∷ es) bot s good =
      let (s', up, round) = on_odom-grows m laws g b x y yaw now s (ground arith) in
      let g' = on_odom m g b x y yaw now in
      let (up', round') = feed_all-grows g' es bot s' (ground arith) in
      (
        fle_trans (travel g bot) (travel g' bot) (travel (feed_all m g' es) bot) (up bot) up',
        fle_trans (turn g bot) (turn g' bot) (turn (feed_all m g' es) bot) (round bot) round',
      )

gate_exceeded_mono :
    (motion angular d w d' w' : Float)
    → fle fzero d ≡ true
    → fle fzero w ≡ true
    → fle d d' ≡ true
    → fle w w' ≡ true
    → gate_exceeded motion angular d w ≡ true
    → gate_exceeded motion angular d' w' ≡ true
unfolding gate_exceeded
gate_exceeded_mono motion angular d w d' w' p q dd ww h =
    let q' = fle_trans fzero w w' q ww in
    rw (fabs-of-nonneg w' q') (
      let h' = rw (fabs-of-nonneg w q) at h in
      ground (
        arith,
        is_finite_of-le d d' p dd,
        is_finite_of-le w w' q ww,
        flt-fle_trans motion d d',
        flt-fle_trans angular w w',
      ))

new-IsSound : IsSound new_pose_gate
unfolding new_pose_gate Dict.get fle
new-IsSound = record {
  travel_nonneg = λ bot. refl;
  turn_nonneg = λ bot. refl;
  last_finite = λ bot. tt;
}

-- What the node writes into a robot's state from the tracker.
abbrev pub with_snapshot : BotState → PoseGateTracker → String → Float → Float → BotState
with_snapshot b g bot now stale_after = record b {
  odom_disp_since_pose = (snapshot g bot now stale_after).0;
  odom_dyaw_since_pose = (snapshot g bot now stale_after).1;
}

gate_exceeded-snapshot :
    (b : BotState) (g : PoseGateTracker) (bot : String) (now stale_after motion angular : Float)
    → gate_exceeded motion angular (travel g bot) (turn g bot) ≡ true
    → pose_gate_open (with_snapshot b g bot now stale_after) (some motion) (some angular) ≡ true
unfolding pose_gate_open snapshot
gate_exceeded-snapshot b g bot now stale_after motion angular h = ground arith

-- Whatever the tracker has seen before: once the travel or the turn since the last pose has passed
-- its epsilon, the gate is open after any further finite odometry samples of any robots, for every
-- later tick and every window of freshness. Only a pose or a sample that is not finite can close it.
pub pose_gate_latches :
    (m : MathLib) (laws : MathLaws m) (past samples : List Event) (b : BotState) (bot : String)
    (now stale_after motion angular : Float)
    → gate_exceeded motion angular
        (travel (feed_all m new_pose_gate past) bot)
        (turn (feed_all m new_pose_gate past) bot)
      ≡ true
    → all is_good_odom samples ≡ true
    → pose_gate_open
        (with_snapshot b (feed_all m (feed_all m new_pose_gate past) samples) bot now stale_after)
        (some motion)
        (some angular)
      ≡ true
pose_gate_latches m laws past samples b bot now stale_after motion angular h good =
    let g = feed_all m new_pose_gate past in
    let s = feed_all-IsSound m laws new_pose_gate past new-IsSound in
    let (up, round) = feed_all-grows m laws g samples bot s good in
    gate_exceeded-snapshot b (feed_all m g samples) bot now stale_after motion angular (
      gate_exceeded_mono motion angular (travel g bot) (turn g bot)
        (travel (feed_all m g samples) bot) (turn (feed_all m g samples) bot) (s.travel_nonneg bot)
        (s.turn_nonneg bot) up round h)
