-- ===== src/Safety/Health.antt =====
-- ws/src/warehouse_safety/warehouse_safety/sensor_health.py: the judgement of the required sources,
-- and the adapter of terrain_health.py. `none` stands for the exception that a constructor or
-- `observe` raises; an argument that is no number at all has no counterpart here.
pub mod Verdicts
pub mod Epochs
pub mod Frozen
use miniature_warehouse_robo.Base.{
  ℕ, suc, String, Bool, true, false, not, Option, none, some, List, [], ◌∷◌, ◌==◌, ◌&&◌, ◌||◌, ltb,
  leb, eqb, all, if◌then◌else◌,
}
use miniature_warehouse_robo.Base.Dict
use miniature_warehouse_robo.Base.Dict.{Dict}
use miniature_warehouse_robo.Base.Float.{Float, nan, is_finite, flt, fle, fsub, fzero, units}

pub data SourceVerdict : Type 0 where
  absent stale frozen invalid ok : SourceVerdict

-- `SourceVerdict.name`
unfoldable pub name : SourceVerdict → String
name absent = "ABSENT"
name stale = "STALE"
name frozen = "FROZEN"
name invalid = "INVALID"
name ok = "OK"

abbrev pub is_ok : SourceVerdict → Bool
is_ok ok = true
is_ok absent = false
is_ok stale = false
is_ok frozen = false
is_ok invalid = false

abbrev rank : SourceVerdict → ℕ
rank absent = 0
rank stale = 1
rank frozen = 2
rank invalid = 3
rank ok = 4

abbrev pub same_verdict : SourceVerdict → SourceVerdict → Bool
same_verdict v w = eqb (rank v) (rank w)

pub record SourceThresholds : Type 0 where
  pub stale_after_s : Float
  pub min_valid_fraction : Float
  pub frozen_repeats : ℕ

-- `SourceThresholds(...)` with its `__post_init__`
unfoldable pub source_thresholds : Float → Float → ℕ → Option SourceThresholds
source_thresholds stale_after min_valid repeats =
    if not (is_finite stale_after)
    then none
    else if fle stale_after fzero
    then none
    else if not (is_finite min_valid)
    then none
    else if not (flt fzero min_valid && fle min_valid (units 1))
    then none
    else if ltb repeats 2
    then none
    else some (record {
      stale_after_s = stale_after;
      min_valid_fraction = min_valid;
      frozen_repeats = repeats;
    })

pub record SourceObservation : Type 0 where
  pub stamp_s : Float
  pub received_monotonic_s : Float
  pub valid_fraction : Float
  pub digest : Option String

-- The run of a source: the last digest and how often it was seen with an advancing stamp.
abbrev pub Run : Type 0
Run = Option String × ℕ

pub record SensorHealthMonitor : Type 0 where
  pub thresholds : Dict SourceThresholds
  pub last : Dict SourceObservation
  pub runs : Dict Run
  pub epoch : ℕ
  pub previous : Option (Dict SourceVerdict)

pub record HealthReport : Type 0 where
  pub verdicts : Dict SourceVerdict
  pub healthy : Bool
  pub health_epoch : ℕ

abbrev has_empty_name : Dict SourceThresholds → Bool
has_empty_name [] = false
has_empty_name ((source, limits) ∷ rest) = source == "" || has_empty_name rest

unfoldable pub new_monitor : Dict SourceThresholds → Option SensorHealthMonitor
new_monitor [] = none
new_monitor (t ∷ ts) =
    if has_empty_name (t ∷ ts)
    then none
    else some (record { thresholds = t ∷ ts; last = []; runs = []; epoch = 0; previous = none })

abbrev pub run_of : Dict Run → String → Run
run_of runs source = elim (Dict.get runs source) [ none ↦ (none, 0) | some r ↦ r ]

-- Does the stamp of `obs` lie after that of the observation before it?
unfoldable pub stamp_advanced : Option SourceObservation → SourceObservation → Bool
stamp_advanced none obs = false
stamp_advanced (some previous) obs =
    is_finite previous.stamp_s && (is_finite obs.stamp_s && flt previous.stamp_s obs.stamp_s)

abbrev run_with : Option String → ℕ → String → Bool → Run
run_with none run digest advanced = (some digest, 1)
run_with (some before) run digest advanced =
    if not (before == digest)
    then (some digest, 1)
    else (some digest, if advanced then suc run else run)

abbrev pub next_run : Run → Option String → Bool → Run
next_run run none advanced = run
next_run (before, run) (some digest) advanced = run_with before run digest advanced

unfoldable pub advance_run : Run → Option SourceObservation → SourceObservation → Run
advance_run run previous obs = next_run run obs.digest (stamp_advanced previous obs)

-- The two assignments of `observe`.
unfoldable pub recorded : SensorHealthMonitor → String → SourceObservation → SensorHealthMonitor
recorded m source obs = record m {
  runs = Dict.put m.runs source (advance_run (run_of m.runs source) (Dict.get m.last source) obs);
  last = Dict.put m.last source obs;
}

unfoldable pub observe :
    SensorHealthMonitor → String → SourceObservation → Option SensorHealthMonitor
unfolding recorded
observe m source obs = elim (Dict.get m.thresholds source) [
  | none ↦ none
  | some limits ↦ some (recorded m source obs)
]

-- The run says that the sender repeats itself.
unfoldable pub run_is_frozen : Run → ℕ → Bool
run_is_frozen (none, run) repeats = false
run_is_frozen (some digest, run) repeats = leb repeats run

unfoldable pub verdict_of :
    Option SourceObservation → Run → SourceThresholds → Float → SourceVerdict
verdict_of none run limits now = absent
verdict_of (some obs) run limits now =
    let age = fsub now obs.received_monotonic_s in
    if not (is_finite now) || not (is_finite obs.received_monotonic_s)
    then stale
    else if flt age fzero || flt limits.stale_after_s age
    then stale
    else if run_is_frozen run limits.frozen_repeats
    then frozen
    else if not (is_finite obs.stamp_s)
    then invalid
    else if not (fle fzero obs.valid_fraction && fle obs.valid_fraction (units 1))
    then invalid
    else if flt obs.valid_fraction limits.min_valid_fraction
    then invalid
    else ok

-- `_verdict` for one source, and the dictionary of them all.
unfoldable pub verdict : SensorHealthMonitor → Float → String → SourceThresholds → SourceVerdict
verdict m now source limits = verdict_of (Dict.get m.last source) (run_of m.runs source) limits now

unfoldable pub verdicts_of :
    SensorHealthMonitor → Float → Dict SourceThresholds → Dict SourceVerdict
verdicts_of m now [] = []
verdicts_of m now ((source, limits) ∷ rest) =
    (source, verdict m now source limits) ∷ verdicts_of m now rest

-- Equality of two verdict maps with the same sources in the same order.
unfoldable pub same_verdicts : Dict SourceVerdict → Dict SourceVerdict → Bool
same_verdicts [] [] = true
same_verdicts [] (x ∷ ys) = false
same_verdicts (x ∷ xs) [] = false
same_verdicts ((s, v) ∷ xs) ((t, w) ∷ ys) = s == t && (same_verdict v w && same_verdicts xs ys)

-- `previous is not None and verdicts != previous`
unfoldable pub changed : Option (Dict SourceVerdict) → Dict SourceVerdict → Bool
changed none now = false
changed (some before) now = not (same_verdicts now before)

unfoldable pub evaluate : SensorHealthMonitor → Float → SensorHealthMonitor × HealthReport
evaluate m now =
    let verdicts' = verdicts_of m now m.thresholds in
    let epoch' = if changed m.previous verdicts' then suc m.epoch else m.epoch in
    (
      record m { epoch = epoch'; previous = some verdicts' },
      record {
        verdicts = verdicts';
        healthy = all (λ e. is_ok e.1) verdicts';
        health_epoch = epoch';
      },
    )

-- What `TerrainCoverage` hands on: the stamp, the valid fraction and the digest.
abbrev pub Coverage : Type 0
Coverage = Float × Float × Option String

-- terrain_health.py: the validation of the payload by pydantic is the parameter.
unfoldable pub coverage_observation :
    (String → Option Coverage) → String → Float → SourceObservation
coverage_observation parse payload received = elim (parse payload) [
  | none ↦ record {
    stamp_s = nan;
    received_monotonic_s = received;
    valid_fraction = nan;
    digest = none;
  }
  | some (stamp, fraction, frame_digest) ↦ record {
    stamp_s = stamp;
    received_monotonic_s = received;
    valid_fraction = fraction;
    digest = frame_digest;
  }
]
