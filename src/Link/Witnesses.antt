-- ===== src/Link/Witnesses.antt =====
-- The theorems of the control link at concrete inputs.
use miniature_warehouse_robo.Base.{
  ◌≡◌, refl, true, false, none, some, List, [], ◌∷◌, ◌++◌, all, if◌then◌else◌,
}
use miniature_warehouse_robo.Base.Int.{◌-ℤ◌, ◌+ℤ◌}
use miniature_warehouse_robo.Base.Dict
use miniature_warehouse_robo.Base.Float.{
  units, is_finite, flt, fle, fadd, fsub, fabs, fneg, fzero, micro, nan,
}
use miniature_warehouse_robo.Link.Session.{
  ControlMessage, CrossingApprovalToken, SessionGuard, teleop, teleop_payload, new_session_guard,
  require_finite, accept, admits, admitted, take_pending_teleop, reconnect, replay_teleop,
}
use miniature_warehouse_robo.Link.Session.Once.{
  Input, message, take, connect, receive_all, accepted_once, old_session_not_replayed,
}
use miniature_warehouse_robo.Link.Watchdog
use miniature_warehouse_robo.Link.Watchdog.{
  VideoFreshness, new_video, observe_frame, fresh, LinkWatchdog, new_watchdog, evaluate,
  stop_request_payload, engage_payload, reason_link_loss,
}
use miniature_warehouse_robo.Link.Watchdog.Video.{
  Frame, observe_all, earlier_or_long_before, video_recovers,
}
use miniature_warehouse_robo.Link.Watchdog.Latch
use miniature_warehouse_robo.Link.Watchdog.Latch.{engaged_after, link_loss_latches}
use miniature_warehouse_robo.Link.Approval.{Registry, consume, evict_expired, is_valid_token}
use miniature_warehouse_robo.Link.Approval.OneShot.{
  Presentation, present_all, not_after, token_once,
}

abbrev drive : ControlMessage
drive = record {
  kind = teleop;
  session_epoch = 1;
  sequence = 5;
  sent_at_s = units 10;
  payload = teleop_payload (micro 500_000 ∷ []) [];
}

abbrev guard : SessionGuard
guard = record {
  max_clock_skew_s = units 1;
  valid_for_s = units 1;
  session_epoch = 1;
  last_sequence = none;
  pending_teleop = none;
  pending_received_mono_s = none;
  discarded_teleop_count = 0;
}

guard_is_new : new_session_guard 1 (units 1) (units 1) ≡ some guard
unfolding new_session_guard require_finite is_finite flt fle
guard_is_new = refl

drive_accepted : (accept guard (some drive) (units 10) (units 3)).1 ≡ true
unfolding accept admits admitted is_finite flt fsub fadd ◌-ℤ◌ ◌+ℤ◌
drive_accepted = refl

accepted_once_example :
    (accept
      (receive_all (accept guard (some drive) (units 10) (units 3)).0 (take ∷ connect 2 ∷ []))
      (some drive)
      (units 11)
      (units 4)).1
    ≡ false
accepted_once_example =
    accepted_once guard drive (take ∷ connect 2 ∷ []) (units 10) (units 3) (units 11) (units 4)
      drive_accepted

abbrev session : List Input
session = message (some drive) (units 10) (units 3) ∷ []

abbrev emptied : SessionGuard
emptied = record guard { last_sequence = some 5 }

abbrev renewed : SessionGuard
renewed = record guard { session_epoch = 2 }

drive_taken : (take_pending_teleop (receive_all guard session)).1 ≡ some (drive, units 3)
unfolding take_pending_teleop accept admits admitted is_finite flt fsub fadd ◌-ℤ◌ ◌+ℤ◌
drive_taken = refl

second_session : reconnect (take_pending_teleop (receive_all guard session)).0 2 ≡ some (renewed, 0)
unfolding reconnect take_pending_teleop accept admits admitted is_finite flt fsub fadd ◌-ℤ◌ ◌+ℤ◌
second_session = refl

old_session_not_replayed_example :
    replay_teleop
      (some drive)
      (units 3)
      (units 3)
      (units 1)
      (receive_all renewed (take ∷ [])).session_epoch
      none
      none
    ≡ none
old_session_not_replayed_example =
    old_session_not_replayed 1 (units 1) (units 1) session (take ∷ []) drive (units 3) 2 0 renewed
      (units 3) (units 3) (units 1) none none guard_is_new drive_taken second_session

abbrev watchdog : LinkWatchdog
watchdog = record { timeout_s = units 1; last_heartbeat_mono_s = none; engaged = true }

watchdog_is_new : new_watchdog (units 1) ≡ some watchdog
unfolding new_watchdog require_finite is_finite flt fle
watchdog_is_new = refl

abbrev beats : List Latch.Input
beats = Latch.heartbeat (units 1) ∷ Latch.rearmed (units 1) ∷ Latch.heartbeat nan ∷ []

link_loss_latches_example :
    ((evaluate (Latch.receive_all watchdog beats) (units 5)).1.engaged
      ≡ engaged_after (units 1) true none (beats ++ (Latch.tick (units 5) ∷ [])))
    × (stop_request_payload (some (evaluate (Latch.receive_all watchdog beats) (units 5)).1) ≡ (
        if engaged_after (units 1) true none (beats ++ (Latch.tick (units 5) ∷ []))
        then some engage_payload
        else none))
    × ((evaluate (Latch.receive_all watchdog beats) (units 5)).1.reason_code ≡ (
        if engaged_after (units 1) true none (beats ++ (Latch.tick (units 5) ∷ []))
        then some reason_link_loss
        else none))
link_loss_latches_example = link_loss_latches (units 1) beats (units 5) watchdog_is_new

abbrev token : CrossingApprovalToken
token = record {
  token_id = "t1";
  crossing_id = "c1";
  route_version = "r1";
  datum_version = "d1";
  entry_heading = fzero;
  expires_at_s = units 20;
}

abbrev registry : Registry
registry = []

abbrev another : List Presentation
another =
    record { token = some token; now_wall = units 11; crossing = "c2"; route = "r1"; datum = "d1" }
    ∷ []

token_consumed : (consume registry (some token) (units 10) "c1" "r1" "d1").1 ≡ true
unfolding consume evict_expired is_valid_token is_finite flt Dict.get
token_consumed = refl

another_is_earlier : all (not_after (units 12)) another ≡ true
unfolding all fle
another_is_earlier = refl

token_once_example :
    (consume
      (present_all (consume registry (some token) (units 10) "c1" "r1" "d1").0 another)
      (some token)
      (units 12)
      "c1"
      "r1"
      "d1").1
    ≡ false
token_once_example =
    token_once registry token (units 10) "c1" "r1" "d1" another (units 12) "c1" "r1" "d1"
      token_consumed another_is_earlier

abbrev video : VideoFreshness
video = record {
  stale_after_s = units 1;
  max_stamp_skew_s = units 1;
  last_stamp_s = none;
  last_arrival_mono_s = none;
}

-- One frame of a clock that runs fast, and one with a stamp far ahead.
abbrev frames : List Frame
frames = (units 11, units 10, units 3) ∷ (units 100, units 11, units 4) ∷ []

video_is_new : new_video (units 1) (units 1) ≡ some video
unfolding new_video require_finite is_finite flt fle
video_is_new = refl

frames_cannot_block : all (earlier_or_long_before (units 1) (units 14) (units 14)) frames ≡ true
unfolding all flt fadd ◌+ℤ◌
frames_cannot_block = refl

video_recovers_example :
    ((observe_frame (observe_all video frames) (units 14) (units 14) (units 6)).1 ≡ true)
    × (Watchdog.verdict
          (observe_frame (observe_all video frames) (units 14) (units 14) (units 6)).0
          (units 6)
        ≡ fresh)
video_recovers_example =
    video_recovers (units 1) (units 1) frames (units 14) (units 14) (units 6) video_is_new
      frames_cannot_block (unfold is_finite in refl) (unfold is_finite in refl)
      (unfold is_finite in refl) (unfold flt fsub fabs fneg ◌-ℤ◌ in refl)
