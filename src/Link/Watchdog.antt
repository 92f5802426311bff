-- ===== src/Link/Watchdog.antt =====
-- `LinkWatchdog`, `stop_request_payload` and `VideoFreshness` of
-- ws/src/warehouse_teleop/warehouse_teleop/operator_link_logic.py. `none` stands for the `ValueError`
-- that a constructor raises.
pub mod Latch
pub mod Video
use miniature_warehouse_robo.Base.{
  String, Bool, true, false, not, Option, none, some, ◌&&◌, ◌||◌, if◌then◌else◌,
}
use miniature_warehouse_robo.Base.Float.{Float, is_finite, flt, fle, fsub, fabs, fzero}
use miniature_warehouse_robo.Link.Session.{require_finite}

pub record LinkVerdict : Type 0 where
  pub engaged : Bool
  pub reason_code : Option String
  age_s : Option Float

pub record LinkWatchdog : Type 0 where
  pub timeout_s : Float
  pub last_heartbeat_mono_s : Option Float
  pub engaged : Bool

abbrev positive : Option Float → Option Float
positive none = none
positive (some value) = if fle value fzero then none else some value

-- `LinkWatchdog(timeout_s)`: engaged until it is rearmed.
unfoldable pub new_watchdog : Float → Option LinkWatchdog
unfolding require_finite
new_watchdog timeout = elim (positive (require_finite timeout fzero)) [
  | none ↦ none
  | some timeout' ↦
      some (record { timeout_s = timeout'; last_heartbeat_mono_s = none; engaged = true })
]

pub observe_heartbeat : LinkWatchdog → Float → LinkWatchdog × Bool
observe_heartbeat w now =
    if not (is_finite now)
    then (w, false)
    else (record w { last_heartbeat_mono_s = some now }, true)

pub age : Option Float → Float → Option Float
age none now = none
age (some last) now = if not (is_finite now) then none else some (fsub now last)

pub is_fresh : LinkWatchdog → Float → Bool
unfolding age
is_fresh w now = elim (age w.last_heartbeat_mono_s now) [
  | none ↦ false
  | some a ↦ fle fzero a && fle a w.timeout_s
]

abbrev pub reason_link_loss : String
reason_link_loss = "link_loss"

-- `age is None or age > timeout or age < 0.0`
abbrev link_is_lost : Option Float → Float → Bool
link_is_lost none timeout = true
link_is_lost (some a) timeout = flt timeout a || flt a fzero

unfoldable pub evaluate : LinkWatchdog → Float → LinkWatchdog × LinkVerdict
unfolding age
evaluate w now =
    let a = age w.last_heartbeat_mono_s now in
    let engaged' = if link_is_lost a w.timeout_s then true else w.engaged in
    (
      record w { engaged = engaged' },
      record {
        engaged = engaged';
        reason_code = if engaged' then some reason_link_loss else none;
        age_s = a;
      },
    )

pub rearm : LinkWatchdog → Float → LinkWatchdog × Bool
unfolding is_fresh
rearm w now = if not (is_fresh w now) then (w, false) else (record w { engaged = false }, true)

abbrev pub engage_payload : String
engage_payload = "{\"action\": \"engage\"}"

pub stop_request_payload : Option LinkVerdict → Option String
stop_request_payload none = none
stop_request_payload (some verdict) = if not verdict.engaged then none else some engage_payload

pub data VideoState : Type 0 where
  fresh stale absent : VideoState

pub record VideoFreshness : Type 0 where
  pub stale_after_s : Float
  pub max_stamp_skew_s : Float
  pub last_stamp_s : Option Float
  pub last_arrival_mono_s : Option Float

unfoldable pub new_video : Float → Float → Option VideoFreshness
unfolding require_finite
new_video stale_after skew = elim (positive (require_finite stale_after fzero)) [
  | none ↦ none
  | some stale_after' ↦ elim (require_finite skew fzero) [
    | none ↦ none
    | some skew' ↦ some (record {
      stale_after_s = stale_after';
      max_stamp_skew_s = skew';
      last_stamp_s = none;
      last_arrival_mono_s = none;
    })
  ]
]

unfoldable pub reset : VideoFreshness → VideoFreshness
reset v = record v { last_stamp_s = none; last_arrival_mono_s = none }

abbrev is_older : Option Float → Float → Bool
is_older none stamp = false
is_older (some last) stamp = fle stamp last

unfoldable pub observe_frame : VideoFreshness → Float → Float → Float → VideoFreshness × Bool
observe_frame v stamp now_wall now_mono =
    if not (is_finite stamp) || not (is_finite now_wall)
    then (v, false)
    else if not (is_finite now_mono)
    then (v, false)
    else if flt v.max_stamp_skew_s (fabs (fsub stamp now_wall))
    then (v, false)
    else if is_older v.last_stamp_s stamp
    then (v, false)
    else (record v { last_stamp_s = some stamp; last_arrival_mono_s = some now_mono }, true)

unfoldable pub verdict : VideoFreshness → Float → VideoState
verdict v now = elim v.last_arrival_mono_s [
  | none ↦ absent
  | some arrival ↦
      if not (is_finite now)
      then stale
      else if flt (fsub now arrival) fzero || flt v.stale_after_s (fsub now arrival)
      then stale
      else fresh
]
