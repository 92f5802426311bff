-- ===== src/Link/Session.antt =====
-- `SessionGuard` and `replay_teleop` of
-- ws/src/warehouse_teleop/warehouse_teleop/operator_link_logic.py, with `joy_is_stale` of joymap.py.
-- `none` stands for the `ValueError` that a constructor or `reconnect` raises. Epochs, sequence
-- numbers and button values have their types here, where the source tests them.
pub mod Once
use miniature_warehouse_robo.Base.{
  ℕ, suc, ◌+◌, String, Bool, true, false, not, Option, none, some, List, [], ◌∷◌, ◌&&◌, ◌||◌, all,
  length, is_some, ltb, leb, eqb, if◌then◌else◌,
}
use miniature_warehouse_robo.Base.Int.{ℤ}
use miniature_warehouse_robo.Base.Float.{Float, is_finite, flt, fle, fadd, fsub, fzero, micro}

pub data ControlKind : Type 0 where
  heartbeat teleop stop_request crossing_approval authority : ControlKind

pub record CrossingApprovalToken : Type 0 where
  pub token_id : String
  pub crossing_id : String
  pub route_version : String
  pub datum_version : String
  pub entry_heading : Float
  pub expires_at_s : Float

pub data ControlPayload : Type 0 where
  heartbeat_payload : ControlPayload
  teleop_payload : List Float → List ℤ → ControlPayload
  stop_request_payload : String → ControlPayload
  crossing_approval_payload : CrossingApprovalToken → ControlPayload
  authority_payload : Bool → ControlPayload

pub record ControlMessage : Type 0 where
  pub kind : ControlKind
  pub session_epoch : ℕ
  pub sequence : ℕ
  pub sent_at_s : Float
  pub payload : ControlPayload

-- `_require_finite`
unfoldable pub require_finite : Float → Float → Option Float
require_finite value minimum =
    if not (is_finite value) || flt value minimum then none else some value

pub record SessionGuard : Type 0 where
  pub max_clock_skew_s : Float
  pub valid_for_s : Float
  pub session_epoch : ℕ
  pub last_sequence : Option ℕ
  pub pending_teleop : Option ControlMessage
  pub pending_received_mono_s : Option Float
  pub discarded_teleop_count : ℕ

unfoldable pub new_session_guard : ℕ → Float → Float → Option SessionGuard
unfolding require_finite
new_session_guard epoch skew valid_for = elim (require_finite skew fzero) [
  | none ↦ none
  | some skew' ↦ elim (require_finite valid_for fzero) [
    | none ↦ none
    | some valid_for' ↦
        if fle valid_for' fzero
        then none
        else some (record {
          max_clock_skew_s = skew';
          valid_for_s = valid_for';
          session_epoch = epoch;
          last_sequence = none;
          pending_teleop = none;
          pending_received_mono_s = none;
          discarded_teleop_count = 0;
        })
  ]
]

-- `last_sequence is not None and sequence <= last_sequence`
abbrev pub is_replay : Option ℕ → ℕ → Bool
is_replay none sequence = false
is_replay (some last) sequence = leb sequence last

-- The tests of `accept`, in their order.
unfoldable pub admits : SessionGuard → ControlMessage → Float → Float → Bool
admits g msg now_wall now_mono =
    if not (is_finite now_wall) || not (is_finite now_mono)
    then false
    else if not (eqb msg.session_epoch g.session_epoch)
    then false
    else if is_replay g.last_sequence msg.sequence
    then false
    else not (
        flt msg.sent_at_s (fsub (fsub now_wall g.valid_for_s) g.max_clock_skew_s)
        || flt (fadd now_wall g.max_clock_skew_s) msg.sent_at_s)

abbrev is_teleop : ControlKind → Bool
is_teleop teleop = true
is_teleop heartbeat = false
is_teleop stop_request = false
is_teleop crossing_approval = false
is_teleop authority = false

-- The assignments of `accept`.
unfoldable pub admitted : SessionGuard → ControlMessage → Float → SessionGuard
admitted g msg now_mono =
    if is_teleop msg.kind
    then record g {
      last_sequence = some msg.sequence;
      pending_teleop = some msg;
      pending_received_mono_s = some now_mono;
    }
    else record g { last_sequence = some msg.sequence }

unfoldable pub accept : SessionGuard → Option ControlMessage → Float → Float → SessionGuard × Bool
accept g none now_wall now_mono = (g, false)
accept g (some msg) now_wall now_mono =
    if admits g msg now_wall now_mono then (admitted g msg now_mono, true) else (g, false)

-- The pending sample with the time at which it came, if both are there.
abbrev pending_pair : Option ControlMessage → Option Float → Option (ControlMessage × Float)
pending_pair none received = none
pending_pair (some msg) none = none
pending_pair (some msg) (some t) = some (msg, t)

unfoldable pub take_pending_teleop : SessionGuard → SessionGuard × Option (ControlMessage × Float)
take_pending_teleop g = elim (pending_pair g.pending_teleop g.pending_received_mono_s) [
  | none ↦ (g, none)
  | some pair ↦ (record g { pending_teleop = none; pending_received_mono_s = none }, some pair)
]

unfoldable pub reconnect : SessionGuard → ℕ → Option (SessionGuard × ℕ)
reconnect g new_epoch =
    let discarded = if is_some g.pending_teleop then 1 else 0 in
    if leb new_epoch g.session_epoch
    then none
    else some (
      record g {
        session_epoch = new_epoch;
        last_sequence = none;
        pending_teleop = none;
        pending_received_mono_s = none;
        discarded_teleop_count = g.discarded_teleop_count + discarded;
      },
      discarded,
    )

abbrev default_joy_timeout_s : Float
default_joy_timeout_s = micro 600_000

unfoldable pub positive_or_default : Float → Float → Float
positive_or_default value default =
    if not (is_finite value) || fle value fzero then default else value

unfoldable pub joy_is_stale : Float → Float → Bool
unfolding positive_or_default
joy_is_stale elapsed timeout =
    not (is_finite elapsed) || flt (positive_or_default timeout default_joy_timeout_s) elapsed

abbrev length_fits : Option ℕ → ℕ → Bool
length_fits none n = true
length_fits (some expected) n = eqb n expected

-- The tests on the payload, which hand the two arrays on.
abbrev replay_payload :
    ControlPayload → Float → Float → Float → Option ℕ → Option ℕ → Option (List Float × List ℤ)
replay_payload heartbeat_payload now received timeout expected_axes expected_buttons = none
replay_payload (stop_request_payload action) now received timeout expected_axes expected_buttons =
    none
replay_payload (crossing_approval_payload token) now received timeout expected_axes
      expected_buttons =
    none
replay_payload (authority_payload claim) now received timeout expected_axes expected_buttons = none
replay_payload (teleop_payload axes buttons) now received timeout expected_axes expected_buttons =
    if not (is_finite now) || not (is_finite received)
    then none
    else if not (is_finite timeout) || fle timeout fzero
    then none
    else if flt (fsub now received) fzero || joy_is_stale (fsub now received) timeout
    then none
    else if not (all is_finite axes)
    then none
    else if not (length_fits expected_axes (length axes))
    then none
    else if not (length_fits expected_buttons (length buttons))
    then none
    else some (axes, buttons)

pub replay_teleop :
    Option ControlMessage
    → Float
    → Float
    → Float
    → ℕ
    → Option ℕ
    → Option ℕ
    → Option (List Float × List ℤ)
unfolding joy_is_stale all
replay_teleop none now received timeout current_epoch expected_axes expected_buttons = none
replay_teleop (some msg) now received timeout current_epoch expected_axes expected_buttons =
    if not (is_teleop msg.kind)
    then none
    else if not (eqb msg.session_epoch current_epoch)
    then none
    else replay_payload msg.payload now received timeout expected_axes expected_buttons
