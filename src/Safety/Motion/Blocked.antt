-- ===== src/Safety/Motion/Blocked.antt =====
-- The clock of `BlockTracker`.
use miniature_warehouse_robo.Base.{
  String, ◌≡◌, refl, Bool, true, false, some, List, [], ◌∷◌, ◌==◌, eq_iff, arith, ◌∙◌, ◌&&◌, ◌||◌,
  not, Bool-cases, inl, inr,
}
use miniature_warehouse_robo.Base.Dict
use miniature_warehouse_robo.Base.Dict.{Dict, get-put_self, get-put_ne, get-put}
use miniature_warehouse_robo.Base.Float.{Float, fle, fsub}
use miniature_warehouse_robo.Safety.Guard.{distance}
use miniature_warehouse_robo.Safety.Motion.{MathLib, BlockTracker, moved, update}

-- One pose: robot, x, y, time.
abbrev Pose : Type 0
Pose = String × Float × Float × Float

abbrev pub update_all : MathLib → BlockTracker → List Pose → BlockTracker
update_all m b [] = b
update_all m b ((bot, x, y, now) ∷ ps) = update_all m (update m b bot x y now).0 ps

-- The pose is of another robot, or nearer to (x, y) than epsilon.
abbrev pub stays_near : MathLib → Float → String → Float → Float → List Pose → Bool
stays_near m epsilon bot x y [] = true
stays_near m epsilon bot x y ((bot', x', y', now) ∷ ps) =
    (not (bot' == bot) || not (fle epsilon (distance m.hypot x y x' y')))
    && stays_near m epsilon bot x y ps

-- The anchor of a robot: where and when it last moved.
record IsAnchored (b : BlockTracker) (bot : String) (x y t : Float) : Type 0 where
  at : Dict.get b.last_xy bot ≡ some (x, y)
  since : Dict.get b.last_moved_t bot ≡ some t

update-epsilon :
    (m : MathLib) (b : BlockTracker) (bot : String) (x y now : Float)
    → (update m b bot x y now).0.epsilon ≡ b.epsilon
unfolding update
update-epsilon m b bot x y now = ground arith

update-IsAnchored :
    (m : MathLib) (b : BlockTracker) (bot bot' : String) (x y t x' y' now : Float)
    → IsAnchored b bot x y t
    → (not (bot' == bot) || not (fle b.epsilon (distance m.hypot x y x' y'))) ≡ true
    → IsAnchored (update m b bot' x' y' now).0 bot x y t
unfolding update
update-IsAnchored m b bot bot' x y t x' y' now a h =
    elim (Bool-cases (moved m b.epsilon (Dict.get b.last_xy bot') x' y')) [
      | inl goes ↦
          let other : (bot' == bot) ≡ false =
            unfold moved in ground (arith, a.at, eq_iff bot' bot) in
          rw goes (record {
            at = get-put_ne b.last_xy bot' bot (x', y') other ∙ a.at;
            since = get-put_ne b.last_moved_t bot' bot now other ∙ a.since;
          })
      | inr stays ↦ rw stays a
    ]

update-anchor :
    (m : MathLib) (b : BlockTracker) (bot : String) (x y t : Float)
    → moved m b.epsilon (Dict.get b.last_xy bot) x y ≡ true
    → IsAnchored (update m b bot x y t).0 bot x y t
unfolding update
update-anchor m b bot x y t h =
    rw h
      (record { at = get-put_self b.last_xy bot (x, y); since = get-put_self b.last_moved_t bot t })

update_all-IsAnchored :
    (m : MathLib) (b : BlockTracker) (bot : String) (x y t : Float) (ps : List Pose)
    → IsAnchored b bot x y t
    → stays_near m b.epsilon bot x y ps ≡ true
    → IsAnchored (update_all m b ps) bot x y t × ((update_all m b ps).epsilon ≡ b.epsilon)
update_all-IsAnchored m b bot x y t [] a h = (a, refl)
update_all-IsAnchored m b bot x y t ((bot', x', y', now) ∷ ps) a h =
    let b' = (update m b bot' x' y' now).0 in
    let same = update-epsilon m b bot' x' y' now in
    let a' = update-IsAnchored m b bot bot' x y t x' y' now a (ground arith) in
    let (a'', same') = update_all-IsAnchored m b' bot x y t ps a' (rw same (ground arith)) in
    (a'', same' ∙ same)

-- A robot that moved at time t to (x, y), and whose later poses all stay nearer to that point than
-- epsilon, is reported as blocked for exactly the time since t, whatever poses other robots send in
-- between: jitter neither resets the clock nor moves its start.
pub blocked_duration_exact :
    (m : MathLib) (b : BlockTracker) (bot : String) (x y t : Float) (ps : List Pose)
    (x' y' now : Float)
    → moved m b.epsilon (Dict.get b.last_xy bot) x y ≡ true
    → stays_near m b.epsilon bot x y ps ≡ true
    → fle b.epsilon (distance m.hypot x y x' y') ≡ false
    → (update m (update_all m (update m b bot x y t).0 ps) bot x' y' now).1 ≡ fsub now t
blocked_duration_exact m b bot x y t ps x' y' now goes near still =
    let b' = (update m b bot x y t).0 in
    let same = update-epsilon m b bot x y t in
    let (a, same') =
      update_all-IsAnchored m b' bot x y t ps (update-anchor m b bot x y t goes) (rw same near) in
    let here : fle (update_all m b' ps).epsilon (distance m.hypot x y x' y') ≡ false =
      rw (same', same) still in
    unfold update moved in rw (a.at, here) (ground (arith, a.since))
