-- ===== src/Safety/Health/Frozen.antt =====
-- A sender that repeats itself is never judged OK.
use miniature_warehouse_robo.Base.{
  ℕ, suc, ◌+◌, ◌≤◌, String, ◌≡◌, refl, sym, subst, Bool, true, false, not, ◌&&◌, ◌||◌, Option, none,
  some, List, [], ◌∷◌, ◌==◌, eq_iff, arith, all, length, Bool-cases, Option-cases, inl, inr,
}
use miniature_warehouse_robo.Base.Dict
use miniature_warehouse_robo.Base.Dict.{Dict, get-put, get-put_self, get-put_ne, ==-refl}
use miniature_warehouse_robo.Base.Float.{Float, is_finite, flt}
use miniature_warehouse_robo.Safety.Health.{
  is_ok, SourceThresholds, SourceObservation, Run, SensorHealthMonitor, run_of, run_is_frozen,
  stamp_advanced, advance_run, next_run, recorded, observe, verdict_of, verdict, evaluate,
}
use miniature_warehouse_robo.Safety.Health.Epochs.{Op, message, tick, perform, perform_all}

-- The run of the source shows the digest d at least n times.
abbrev RunsAt : SensorHealthMonitor → String → String → ℕ → Type 0
RunsAt m source d n = ((run_of m.runs source).0 ≡ some d) × (n ≤ (run_of m.runs source).1)

-- A message of the source carries the digest d or none at all.
abbrev pub repeats : String → String → Op → Bool
repeats source d (tick now) = true
repeats source d (message source' obs) =
    not (source' == source) || elim obs.digest [ none ↦ true | some d' ↦ d' == d ]

run_of-put_self :
    (runs : Dict Run) (source : String) (r : Run) → run_of (Dict.put runs source r) source ≡ r
run_of-put_self runs source r = ground (arith, get-put_self runs source r)

run_of-put_ne :
    (runs : Dict Run) (source j : String) (r : Run)
    → (source == j) ≡ false
    → run_of (Dict.put runs source r) j ≡ run_of runs j
run_of-put_ne runs source j r h = ground (arith, get-put_ne runs source j r h)

next_run-keeps :
    (d : String) (r : Run) (digest : Option String) (advanced : Bool)
    → (elim digest [ none ↦ true | some d' ↦ d' == d ]) ≡ true
    → r.0 ≡ some d
    → ((next_run r digest advanced).0 ≡ some d) × (r.1 ≤ (next_run r digest advanced).1)
next_run-keeps d (b, k) none advanced h e = (e, omega arith)
next_run-keeps d (b, k) (some d') advanced h e = ground (arith, eq_iff d' d, eq_iff d d')

perform-undeclared :
    (m : SensorHealthMonitor) (source : String) (obs : SourceObservation)
    → Dict.get m.thresholds source ≡ none
    → perform m (message source obs) ≡ m
unfolding observe
perform-undeclared m source obs h = ground (arith, h)

perform-declared :
    (m : SensorHealthMonitor) (source : String) (obs : SourceObservation)
    {limits : SourceThresholds}
    → Dict.get m.thresholds source ≡ some limits
    → perform m (message source obs) ≡ recorded m source obs
unfolding observe
perform-declared m source obs h = ground (arith, h)

recorded-RunsAt :
    (m : SensorHealthMonitor) (source d : String) (n : ℕ) (source' : String)
    (obs : SourceObservation)
    → repeats source d (message source' obs) ≡ true
    → RunsAt m source d n
    → RunsAt (recorded m source' obs) source d n
unfolding recorded advance_run
recorded-RunsAt m source d n source' obs h r = elim (Bool-cases (source' == source)) [
  | inl same ↦
      let e : source' ≡ source = (eq_iff source' source).0 same in
      rw (e, run_of-put_self)
        (let kept =
            next_run-keeps d (run_of m.runs source) obs.digest
              (stamp_advanced (Dict.get m.last source) obs) (ground arith) r.0 in
          (kept.0, omega (arith, r.1, kept.1)))
  | inr other ↦ rw (run_of-put_ne m.runs source' source _ other) r
]

message-RunsAt :
    (m : SensorHealthMonitor) (source d : String) (n : ℕ) (source' : String)
    (obs : SourceObservation)
    → repeats source d (message source' obs) ≡ true
    → RunsAt m source d n
    → RunsAt (perform m (message source' obs)) source d n
message-RunsAt m source d n source' obs h r = elim (Option-cases (Dict.get m.thresholds source')) [
  | inl undeclared ↦
      subst (λ w. RunsAt w source d n) (sym (perform-undeclared m source' obs undeclared)) r
  | inr (limits, declared) ↦
      subst (λ w. RunsAt w source d n) (sym (perform-declared m source' obs declared))
        (recorded-RunsAt m source d n source' obs h r)
]

perform-RunsAt :
    (m : SensorHealthMonitor) (source d : String) (n : ℕ) (op : Op)
    → repeats source d op ≡ true
    → RunsAt m source d n
    → RunsAt (perform m op) source d n
perform-RunsAt m source d n (message source' obs) h r = message-RunsAt m source d n source' obs h r
perform-RunsAt m source d n (tick now) h r = unfold evaluate in r

perform_all-RunsAt :
    (m : SensorHealthMonitor) (source d : String) (n : ℕ) (ops : List Op)
    → all (repeats source d) ops ≡ true
    → RunsAt m source d n
    → RunsAt (perform_all m ops) source d n
unfolding all
perform_all-RunsAt m source d n [] h r = r
perform_all-RunsAt m source d n (op ∷ ops) h r =
    perform_all-RunsAt (perform m op) source d n ops (ground arith)
      (perform-RunsAt m source d n op (ground arith) r)

run_is_frozen-RunsAt :
    (r : Run) (d : String) (n : ℕ) → r.0 ≡ some d → n ≤ r.1 → run_is_frozen r n ≡ true
unfolding run_is_frozen
run_is_frozen-RunsAt (none, k) d n e l = cc
run_is_frozen-RunsAt (some d', k) d n e l = ground arith

not_ok-of-frozen :
    (o : Option SourceObservation) (run : Run) (limits : SourceThresholds) (now : Float)
    → run_is_frozen run limits.frozen_repeats ≡ true
    → is_ok (verdict_of o run limits now) ≡ false
unfolding verdict_of
not_ok-of-frozen o run limits now h = ground arith

-- Observations of one digest, each with a finite stamp after the one before.
abbrev pub newer : String → Float → List SourceObservation → Bool
newer d stamp [] = true
newer d stamp (obs ∷ rest) =
    (is_finite stamp && (is_finite obs.stamp_s && flt stamp obs.stamp_s))
    && (elim obs.digest [ none ↦ false | some d' ↦ d' == d ] && newer d obs.stamp_s rest)

abbrev pub messages : String → List SourceObservation → List Op
messages source [] = []
messages source (obs ∷ rest) = message source obs ∷ messages source rest

next_run-counts :
    (d : String) (r : Run) (digest : Option String)
    → (elim digest [ none ↦ false | some d' ↦ d' == d ]) ≡ true
    → r.0 ≡ some d
    → ((next_run r digest true).0 ≡ some d) × ((next_run r digest true).1 ≡ suc r.1)
next_run-counts d (b, k) none h e = cc
next_run-counts d (b, k) (some d') h e = ground (arith, eq_iff d' d, eq_iff d d')

-- The source is declared, was last seen in `previous`, and its run stands at n or more.
record IsRepeating (m : SensorHealthMonitor) (source d : String) (n : ℕ)
    (previous : SourceObservation) (limits : SourceThresholds) : Type 0 where
  declared : Dict.get m.thresholds source ≡ some limits
  seen : Dict.get m.last source ≡ some previous
  run : RunsAt m source d n

-- One more repetition with an advancing stamp.
repetition :
    (m : SensorHealthMonitor) (source d : String) (n : ℕ) (previous obs : SourceObservation)
    (limits : SourceThresholds)
    → (is_finite previous.stamp_s && (is_finite obs.stamp_s && flt previous.stamp_s obs.stamp_s))
      ≡ true
    → (elim obs.digest [ none ↦ false | some d' ↦ d' == d ]) ≡ true
    → IsRepeating m source d n previous limits
    → IsRepeating (recorded m source obs) source d (suc n) obs limits
unfolding recorded advance_run
repetition m source d n previous obs limits later same r =
    let advanced : stamp_advanced (Dict.get m.last source) obs ≡ true =
      rw r.seen (unfold stamp_advanced in later) in
    let counted = next_run-counts d (run_of m.runs source) obs.digest same r.run.0 in
    record {
      declared = r.declared;
      seen = get-put_self m.last source obs;
      run = rw (run_of-put_self, advanced) (counted.0, omega (arith, r.run.1, counted.1));
    }

repetitions :
    (m : SensorHealthMonitor) (source d : String) (n : ℕ) (previous : SourceObservation)
    (obss : List SourceObservation) (limits : SourceThresholds)
    → newer d previous.stamp_s obss ≡ true
    → IsRepeating m source d n previous limits
    → RunsAt (perform_all m (messages source obss)) source d (length obss + n)
repetitions m source d n previous [] limits h r = (r.run.0, omega (arith, r.run.1))
repetitions m source d n previous (obs ∷ rest) limits h r =
    let r' =
      repetitions (recorded m source obs) source d (suc n) obs rest limits (ground arith)
        (repetition m source d n previous obs limits (ground arith) (ground arith) r) in
    subst (λ w. RunsAt (perform_all w (messages source rest)) source d (suc (length rest) + n))
      (sym (perform-declared m source obs r.declared)) (r'.0, omega (arith, r'.1))

-- After a message with the digest d, enough further messages with that digest and advancing stamps
-- make the source frozen for good: as long as its messages carry that digest or none, it is not
-- judged OK at any time, whatever stamps they have, whatever re-deliveries, messages of other sources
-- and evaluations come between.
pub frozen_is_not_ok :
    (m : SensorHealthMonitor) (source d : String) (n : ℕ) (previous : SourceObservation)
    (obss : List SourceObservation) (ops : List Op) (limits : SourceThresholds) (now : Float)
    → Dict.get m.thresholds source ≡ some limits
    → Dict.get m.last source ≡ some previous
    → run_of m.runs source ≡ (some d, n)
    → newer d previous.stamp_s obss ≡ true
    → limits.frozen_repeats ≤ length obss + n
    → all (repeats source d) ops ≡ true
    → is_ok (verdict (perform_all (perform_all m (messages source obss)) ops) now source limits)
      ≡ false
unfolding verdict
frozen_is_not_ok m source d n previous obss ops limits now declared seen e h enough still =
    let start : RunsAt m source d n = rw e (refl, omega arith) in
    let m' = perform_all m (messages source obss) in
    let r = perform_all-RunsAt m' source d (length obss + n) ops still (
      repetitions m source d n previous obss limits h
        (record { declared = declared; seen = seen; run = start })) in
    let m'' = perform_all m' ops in
    not_ok-of-frozen (Dict.get m''.last source) (run_of m''.runs source) limits now (
      run_is_frozen-RunsAt (run_of m''.runs source) d limits.frozen_repeats r.0
        (omega (arith, r.1)))
