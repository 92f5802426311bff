-- ===== src/Safety/Guardian/Edges.antt =====
-- The events that the node publishes over a run.
use miniature_warehouse_robo.Base.{
  ℕ, ◌+◌, ◌≡◌, refl, ◌∙◌, ap, String, Bool, false, not, ◌&&◌, List, [], ◌∷◌, arith, any,
}
use miniature_warehouse_robo.Base.Dict.{Dict}
use miniature_warehouse_robo.Base.Float.{Float}
use miniature_warehouse_robo.Safety.Health.{SensorHealthMonitor}
use miniature_warehouse_robo.Safety.Guard.{near_collision}
use miniature_warehouse_robo.Safety.Latches.Edges.{active-rising}
use miniature_warehouse_robo.Safety.Latches.{Key, holds, keys_of, new_latch}
use miniature_warehouse_robo.Safety.Guardian.{
  Env, Config, Guardian, new_guardian, handle_pose, handle_odom, handle_scan,
  handle_terrain_coverage, handle_battery, handle_operator_stop, decide, check_safety,
}
use miniature_warehouse_robo.Safety.Guardian.Publish.{published, events, published-check_safety}
use miniature_warehouse_robo.Safety.Guardian.Runs.{
  Input, pose, odom, scan, coverage, battery, operator, tick, receive, receive_all,
}

-- The rising edges of a signal, from what it was before.
abbrev pub edges : Bool → List Bool → List Bool
edges before [] = []
edges before (now ∷ rest) = (now && not before) ∷ edges now rest

module _ (env : Env) (cfg : Config) where
  -- For each tick of a run: does it publish an event for the key?
  abbrev pub publications : Guardian → List Input → Key → List Bool
  publications g [] k = []
  publications g (tick ready now ∷ is) k =
      let rest = publications (receive env cfg g (tick ready now)) is k in
      published (check_safety env cfg ready g now).1 k ∷ rest
  publications g (i ∷ is) k = publications (receive env cfg g i) is k

  -- For each tick of a run: does it have a decision of the key?
  abbrev pub signals : Guardian → List Input → Key → List Bool
  signals g [] k = []
  signals g (tick ready now ∷ is) k =
      let rest = signals (receive env cfg g (tick ready now)) is k in
      holds (keys_of (decide env cfg g now).1) k ∷ rest
  signals g (i ∷ is) k = signals (receive env cfg g i) is k

  -- How many events the ticks of a run publish.
  abbrev pub event_count : Guardian → List Input → ℕ
  event_count g [] = 0
  event_count g (tick ready now ∷ is) =
      let rest = event_count (receive env cfg g (tick ready now)) is in
      events (check_safety env cfg ready g now).1 + rest
  event_count g (i ∷ is) = event_count (receive env cfg g i) is

  coverage-keeps :
      (g : Guardian) (bot payload : String) (now : Float)
      → ((handle_terrain_coverage env g bot payload now).latch ≡ g.latch)
        × ((handle_terrain_coverage env g bot payload now).seq ≡ g.seq)
  unfolding handle_terrain_coverage
  coverage-keeps g bot payload now = (ground arith, ground arith)

  battery-keeps :
      (g : Guardian) (bot : String) (raw : Float)
      → ((handle_battery cfg g bot raw).latch ≡ g.latch)
        × ((handle_battery cfg g bot raw).seq ≡ g.seq)
  unfolding handle_battery
  battery-keeps g bot raw = (ground arith, ground arith)

  -- A tick leaves its own decisions in the latch.
  latch-check_safety :
      (ready : String → Bool) (g : Guardian) (now : Float) (k : Key)
      → holds (check_safety env cfg ready g now).0.latch.active k
        ≡ holds (keys_of (decide env cfg g now).1) k
  unfolding check_safety
  latch-check_safety ready g now k =
      let (g', ds) = decide env cfg g now in ap (λ keys. holds keys k) (active-rising g'.latch ds)

  publications-edges :
      (g : Guardian) (is : List Input) (k : Key)
      → publications g is k ≡ edges (holds g.latch.active k) (signals g is k)
  publications-edges g [] k = refl
  publications-edges g (tick ready now ∷ is) k =
      rw
        (
          publications-edges (check_safety env cfg ready g now).0 is k,
          latch-check_safety ready g now k,
          (published-check_safety env cfg ready g now k).0,
        )
        refl
  publications-edges g (pose bot x y now ∷ is) k =
      publications-edges (handle_pose env g bot x y now) is k ∙ unfold handle_pose in refl
  publications-edges g (odom bot x y yaw now ∷ is) k =
      publications-edges (handle_odom env g bot x y yaw now) is k ∙ unfold handle_odom in refl
  publications-edges g (scan bot now ∷ is) k =
      publications-edges (handle_scan g bot now) is k ∙ unfold handle_scan in refl
  publications-edges g (coverage bot payload now ∷ is) k =
      publications-edges (handle_terrain_coverage env g bot payload now) is k
      ∙ rw (coverage-keeps g bot payload now).0 refl
  publications-edges g (battery bot raw ∷ is) k =
      publications-edges (handle_battery cfg g bot raw) is k ∙ rw (battery-keeps g bot raw).0 refl
  publications-edges g (operator raw ∷ is) k =
      publications-edges (handle_operator_stop env g raw) is k ∙ unfold handle_operator_stop in refl

  seq-receive_all :
      (g : Guardian) (is : List Input) → (receive_all env cfg g is).seq ≡ event_count g is + g.seq
  seq-receive_all g [] = omega arith
  seq-receive_all g (tick ready now ∷ is) =
      let rest = seq-receive_all (check_safety env cfg ready g now).0 is in
      let step = (published-check_safety env cfg ready g now ("", near_collision)).1 in
      omega (arith, rest, step)
  seq-receive_all g (pose bot x y now ∷ is) =
      seq-receive_all (handle_pose env g bot x y now) is ∙ unfold handle_pose in refl
  seq-receive_all g (odom bot x y yaw now ∷ is) =
      seq-receive_all (handle_odom env g bot x y yaw now) is ∙ unfold handle_odom in refl
  seq-receive_all g (scan bot now ∷ is) =
      seq-receive_all (handle_scan g bot now) is ∙ unfold handle_scan in refl
  seq-receive_all g (coverage bot payload now ∷ is) =
      seq-receive_all (handle_terrain_coverage env g bot payload now) is
      ∙ rw (coverage-keeps g bot payload now).1 refl
  seq-receive_all g (battery bot raw ∷ is) =
      seq-receive_all (handle_battery cfg g bot raw) is ∙ rw (battery-keeps g bot raw).1 refl
  seq-receive_all g (operator raw ∷ is) =
      seq-receive_all (handle_operator_stop env g raw) is ∙ unfold handle_operator_stop in refl

-- From a new node and over any inputs: a tick publishes an event for a robot and a reason exactly if it
-- has such a decision and the tick before it had none, or is the first, whatever callbacks came between;
-- and the event number is the number of the events that were published.
pub events_at_rising_edges :
    (env : Env) (cfg : Config) (monitors : Dict SensorHealthMonitor) (is : List Input) (k : Key)
    → let g = new_guardian monitors in
      (publications env cfg g is k ≡ edges false (signals env cfg g is k))
      × ((receive_all env cfg g is).seq ≡ event_count env cfg g is)
events_at_rising_edges env cfg monitors is k =
    let g = new_guardian monitors in
    (
      publications-edges env cfg g is k ∙ unfold new_guardian new_latch holds any in refl,
      seq-receive_all env cfg g is ∙ unfold new_guardian in omega arith,
    )
