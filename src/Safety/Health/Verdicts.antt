-- ===== src/Safety/Health/Verdicts.antt =====
-- When a source is judged OK, and what that says of the report.
use miniature_warehouse_robo.Base.{
  ℕ, ◌≡◌, refl, Bool, true, false, not, ◌&&◌, ◌||◌, Option, none, some, [], ◌∷◌, arith, all, All,
}
use miniature_warehouse_robo.Base.Dict
use miniature_warehouse_robo.Base.Dict.{Dict}
use miniature_warehouse_robo.Base.Float.{
  Float, is_finite, flt, fle, fsub, fzero, units, is_finite-fsub, not-flt, is_finite-between,
}
use miniature_warehouse_robo.Base.Int.{pos}
use miniature_warehouse_robo.Safety.Health.{
  is_ok, SourceThresholds, source_thresholds, SourceObservation, Run, SensorHealthMonitor, run_of,
  run_is_frozen, verdict_of, verdict, verdicts_of, evaluate,
}

-- What must be shown of a source before a robot may move.
pub established : Option SourceObservation → Run → SourceThresholds → Float → Bool
established none run limits now = false
established (some obs) run limits now =
    is_finite now
    && (is_finite obs.received_monotonic_s
        && (fle fzero (fsub now obs.received_monotonic_s)
            && (fle (fsub now obs.received_monotonic_s) limits.stale_after_s
                && (not (run_is_frozen run limits.frozen_repeats)
                    && (is_finite obs.stamp_s
                        && (fle limits.min_valid_fraction obs.valid_fraction
                            && (fle fzero obs.valid_fraction
                                && fle obs.valid_fraction (units 1))))))))

-- Limits that passed the constructor.
pub record IsValid (limits : SourceThresholds) : Type 0 where
  stale_finite : is_finite limits.stale_after_s ≡ true
  fraction_finite : is_finite limits.min_valid_fraction ≡ true

pub source_thresholds-IsValid :
    (stale_after min_valid : Float) (repeats : ℕ) {limits : SourceThresholds}
    → source_thresholds stale_after min_valid repeats ≡ some limits
    → IsValid limits
unfolding source_thresholds
source_thresholds-IsValid stale_after min_valid repeats h = record {
  stale_finite = ground arith;
  fraction_finite = ground arith;
}

fresh_age :
    (now received stale : Float)
    → is_finite stale ≡ true
    → is_finite now ≡ true
    → is_finite received ≡ true
    → not (flt (fsub now received) fzero || flt stale (fsub now received))
      ≡ (fle fzero (fsub now received) && fle (fsub now received) stale)
unfolding is_finite
fresh_age now received stale h p q =
    let f = is_finite-fsub now received p q in
    ground (arith, not-flt (fsub now received) fzero f refl, not-flt stale (fsub now received) h f)

enough_valid :
    (fraction minimum : Float)
    → is_finite minimum ≡ true
    → (fle fzero fraction && fle fraction (units 1)) ≡ true
    → not (flt fraction minimum) ≡ fle minimum fraction
enough_valid fraction minimum h p =
    not-flt fraction minimum
      (is_finite-between fraction (pos 0) (pos 1_000_000) (ground arith) (ground arith)) h

-- A source is judged OK exactly if everything is established.
is_ok-verdict_of :
    (o : Option SourceObservation) (run : Run) (limits : SourceThresholds) (now : Float)
    → IsValid limits
    → is_ok (verdict_of o run limits now) ≡ established o run limits now
unfolding verdict_of established
is_ok-verdict_of none run limits now v = refl
is_ok-verdict_of (some obs) run limits now v = ground (
  arith,
  fresh_age now obs.received_monotonic_s limits.stale_after_s v.stale_finite,
  enough_valid obs.valid_fraction limits.min_valid_fraction v.fraction_finite,
)

abbrev pub all_established : SensorHealthMonitor → Float → Dict SourceThresholds → Bool
all_established m now [] = true
all_established m now ((source, limits) ∷ rest) =
    established (Dict.get m.last source) (run_of m.runs source) limits now
    && all_established m now rest

all_ok-verdicts_of :
    (m : SensorHealthMonitor) (now : Float) (ts : Dict SourceThresholds)
    → All (λ e. IsValid e.1) ts
    → all (λ e. is_ok e.1) (verdicts_of m now ts) ≡ all_established m now ts
unfolding all verdicts_of verdict
all_ok-verdicts_of m now [] v = refl
all_ok-verdicts_of m now ((source, limits) ∷ rest) (v, vs) = rw (
  is_ok-verdict_of (Dict.get m.last source) (run_of m.runs source) limits now v,
  all_ok-verdicts_of m now rest vs,
)

-- A report is healthy exactly if, for every required source, a message was received, its age on a
-- usable clock lies in the closed window from 0, the sender does not repeat itself, the stamp is a
-- number and the valid fraction lies between the minimum and 1. The limits are those that the
-- constructor accepts.
pub healthy-evaluate :
    (m : SensorHealthMonitor) (now : Float)
    → All (λ e. IsValid e.1) m.thresholds
    → (evaluate m now).1.healthy ≡ all_established m now m.thresholds
unfolding evaluate
healthy-evaluate m now v = all_ok-verdicts_of m now m.thresholds v
