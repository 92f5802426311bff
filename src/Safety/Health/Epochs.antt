-- ===== src/Safety/Health/Epochs.antt =====
-- The version counter of the judgement.
use miniature_warehouse_robo.Base.{
  ℕ, ◌≤◌, String, ◌≡◌, refl, ◌∙◌, sym, ap, true, Option, none, some, List, [], ◌∷◌, eq_iff, arith,
}
use miniature_warehouse_robo.Base.Dict.{Dict}
use miniature_warehouse_robo.Base.Float.{Float}
use miniature_warehouse_robo.Safety.Health.{
  SourceVerdict, same_verdict, same_verdicts, changed, SourceObservation, SensorHealthMonitor,
  observe, evaluate, verdicts_of,
}

same_verdict-eq : (v w : SourceVerdict) → same_verdict v w ≡ true → v ≡ w
same_verdict-eq v w h = ground arith

same_verdicts-eq : (xs ys : Dict SourceVerdict) → same_verdicts xs ys ≡ true → xs ≡ ys
unfolding same_verdicts
same_verdicts-eq [] [] h = refl
same_verdicts-eq [] (y ∷ ys) h = cc
same_verdicts-eq (x ∷ xs) [] h = cc
same_verdicts-eq ((s, v) ∷ xs) ((t, w) ∷ ys) h =
    ground (arith, eq_iff s t, same_verdict-eq v w, same_verdicts-eq xs ys)

-- What the owner of the monitor does between two evaluations.
pub data Op : Type 0 where
  message : String → SourceObservation → Op
  tick : Float → Op

abbrev kept : SensorHealthMonitor → Option SensorHealthMonitor → SensorHealthMonitor
kept m none = m
kept m (some m') = m'

-- A message of an undeclared source raises, and leaves the monitor as it is.
abbrev pub perform : SensorHealthMonitor → Op → SensorHealthMonitor
perform m (message source obs) = kept m (observe m source obs)
perform m (tick now) = (evaluate m now).0

abbrev pub perform_all : SensorHealthMonitor → List Op → SensorHealthMonitor
perform_all m [] = m
perform_all m (op ∷ ops) = perform_all (perform m op) ops

-- The epoch has not moved, or the last judged verdicts are still the same.
record IsSameVersion (vs : Dict SourceVerdict) (epoch : ℕ) (m : SensorHealthMonitor) : Type 0 where
  grown : epoch ≤ m.epoch
  same : m.epoch ≡ epoch → m.previous ≡ some vs

evaluate-grows : (m : SensorHealthMonitor) (now : Float) → m.epoch ≤ (evaluate m now).0.epoch
unfolding evaluate
evaluate-grows m now = ground arith

evaluate-same :
    (m : SensorHealthMonitor) (now : Float) (vs : Dict SourceVerdict)
    → m.previous ≡ some vs
    → (evaluate m now).0.epoch ≡ m.epoch
    → (evaluate m now).1.verdicts ≡ vs
unfolding evaluate changed
evaluate-same m now vs p h = ground (arith, same_verdicts-eq (verdicts_of m now m.thresholds) vs)

judged :
    (m : SensorHealthMonitor) (now : Float)
    → (evaluate m now).0.previous ≡ some (evaluate m now).1.verdicts
unfolding evaluate
judged m now = refl

reported :
    (m : SensorHealthMonitor) (now : Float)
    → (evaluate m now).1.health_epoch ≡ (evaluate m now).0.epoch
unfolding evaluate
reported m now = refl

tick-IsSameVersion :
    (vs : Dict SourceVerdict) (epoch : ℕ) (m : SensorHealthMonitor) (now : Float)
    → IsSameVersion vs epoch m
    → IsSameVersion vs epoch (evaluate m now).0
tick-IsSameVersion vs epoch m now v = record {
  grown = omega (arith, v.grown, evaluate-grows m now);
  same = λ e.
      let stay : m.epoch ≡ epoch = omega (arith, v.grown, evaluate-grows m now, e) in
      let still = evaluate-same m now vs (v.same stay) (e ∙ sym stay) in
      judged m now ∙ ap some still;
}

message-IsSameVersion :
    (vs : Dict SourceVerdict) (epoch : ℕ) (m : SensorHealthMonitor) (source : String)
    (obs : SourceObservation)
    → IsSameVersion vs epoch m
    → IsSameVersion vs epoch (perform m (message source obs))
unfolding observe
message-IsSameVersion vs epoch m source obs v = record {
  grown = ground (arith, v.grown);
  same = λ e. ground (arith, v.grown, e, v.same);
}

perform_all-IsSameVersion :
    (vs : Dict SourceVerdict) (epoch : ℕ) (m : SensorHealthMonitor) (ops : List Op)
    → IsSameVersion vs epoch m
    → IsSameVersion vs epoch (perform_all m ops)
perform_all-IsSameVersion vs epoch m [] v = v
perform_all-IsSameVersion vs epoch m (message source obs ∷ ops) v =
    perform_all-IsSameVersion vs epoch (perform m (message source obs)) ops
      (message-IsSameVersion vs epoch m source obs v)
perform_all-IsSameVersion vs epoch m (tick now ∷ ops) v =
    perform_all-IsSameVersion vs epoch (evaluate m now).0 ops (tick-IsSameVersion vs epoch m now v)

abbrev after : SensorHealthMonitor → Float → List Op → SensorHealthMonitor
after m now ops = perform_all (evaluate m now).0 ops

after-IsSameVersion :
    (m : SensorHealthMonitor) (now : Float) (ops : List Op)
    → IsSameVersion (evaluate m now).1.verdicts (evaluate m now).0.epoch (after m now ops)
after-IsSameVersion m now ops =
    perform_all-IsSameVersion (evaluate m now).1.verdicts (evaluate m now).0.epoch
      (evaluate m now).0 ops (record { grown = omega arith; same = λ e. judged m now })

-- From one report to any later one, whatever messages and evaluations come between them, the health
-- epoch does not fall.
pub epoch_grows :
    (m : SensorHealthMonitor) (now now' : Float) (ops : List Op)
    → (evaluate m now).1.health_epoch
      ≤ (evaluate (perform_all (evaluate m now).0 ops) now').1.health_epoch
epoch_grows m now now' ops = omega (
  arith,
  (after-IsSameVersion m now ops).grown,
  evaluate-grows (after m now ops) now',
  reported (after m now ops) now',
  reported m now,
)

-- Two reports with the same health epoch have the same verdicts, whatever messages and evaluations
-- come between them: a permit that names the current epoch was computed from the current verdicts.
pub same_epoch_same_verdicts :
    (m : SensorHealthMonitor) (now now' : Float) (ops : List Op)
    → (evaluate (perform_all (evaluate m now).0 ops) now').1.health_epoch
      ≡ (evaluate m now).1.health_epoch
    → (evaluate (perform_all (evaluate m now).0 ops) now').1.verdicts ≡ (evaluate m now).1.verdicts
same_epoch_same_verdicts m now now' ops h =
    let m' = after m now ops in
    let v = after-IsSameVersion m now ops in
    let e : (evaluate m' now').0.epoch ≡ (evaluate m now).0.epoch =
      sym (reported m' now') ∙ h ∙ reported m now in
    let stay : m'.epoch ≡ (evaluate m now).0.epoch =
      omega (arith, v.grown, evaluate-grows m' now', e) in
    evaluate-same m' now' (evaluate m now).1.verdicts (v.same stay) (e ∙ sym stay)
