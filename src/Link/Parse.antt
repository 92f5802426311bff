-- ===== src/Link/Parse.antt =====
-- `parse_control_message` of ws/src/warehouse_teleop/warehouse_teleop/operator_link_logic.py. The parameter
-- `loads` is json.loads, `none` its exceptions and what is no text; an object has each key once. An
-- integer of JSON has no bound, and `float_of` is what `float` makes of it, `none` its OverflowError.
pub mod Contract
pub mod Accepted
mod Witnesses
use miniature_warehouse_robo.Base.{
  ℕ, String, Bool, true, false, not, ◌&&◌, ◌||◌, ◌==◌, Option, none, some, List, [], ◌∷◌, ◌++◌, all,
  leb, length, suc, if◌then◌else◌,
}
use miniature_warehouse_robo.Base.Dict
use miniature_warehouse_robo.Base.Dict.{Dict, has}
use miniature_warehouse_robo.Base.Int.{ℤ, pos, negsuc}
use miniature_warehouse_robo.Base.Float.{Float, is_finite}
use miniature_warehouse_robo.Link.Session.{
  ControlKind, heartbeat, teleop, stop_request, crossing_approval, authority, CrossingApprovalToken,
  ControlPayload, heartbeat_payload, teleop_payload, stop_request_payload,
  crossing_approval_payload, authority_payload, ControlMessage,
}
use miniature_warehouse_robo.Link.Values.{
  Value, null, bool, int, num, str, arr, obj, Items, nil, cons, Members, end, member, Failure,
  raised, ignored, Result, ok, err, ◌>>=◌, ◌>>◌, require, members_of, keys, counter, finite,
  nonempty_str, bool_of, array_of, count, ints_of,
}

abbrev pub max_joy_array_len : ℕ
max_joy_array_len = 64

abbrev pub envelope_keys : List String
envelope_keys = "kind" ∷ "session_epoch" ∷ "sequence" ∷ "sent_at_s" ∷ []

abbrev pub payload_keys : ControlKind → List String
payload_keys heartbeat = []
payload_keys teleop = "axes" ∷ "buttons" ∷ []
payload_keys stop_request = "action" ∷ []
payload_keys crossing_approval =
    "token_id" ∷ "crossing_id" ∷ "route_version" ∷ "datum_version" ∷ "entry_heading"
    ∷ "expires_at_s" ∷ []
payload_keys authority = "claim" ∷ []

-- `ControlKind(raw_kind)`
unfoldable pub control_kind : String → Option ControlKind
control_kind s =
    if s == "heartbeat"
    then some heartbeat
    else if s == "teleop"
    then some teleop
    else if s == "stop_request"
    then some stop_request
    else if s == "crossing_approval"
    then some crossing_approval
    else if s == "authority"
    then some authority
    else none

unfoldable pub stop_actions : List String
stop_actions = "engage" ∷ "clear" ∷ []

unfoldable pub same_keys : List String → List String → Bool
unfolding all has
same_keys a b = all (has b) a && all (has a) b

module _ (float_of : ℤ → Option Float) where
  -- `_is_finite_number` and the conversion: `float` may raise.
  abbrev pub converted : Option Float → Result Float
  converted none = err raised
  converted (some x) = finite x

  abbrev pub number : Option Value → Result Float
  number (some (int n)) = converted (float_of n)
  number (some (num x)) = finite x
  number none = err ignored
  number (some null) = err ignored
  number (some (bool b)) = err ignored
  number (some (str s)) = err ignored
  number (some (arr xs)) = err ignored
  number (some (obj ms)) = err ignored

  abbrev pub numbers_of : Items → Result (List Float)
  numbers_of nil = ok []
  numbers_of (cons v xs) = number (some v) >>= λ x. numbers_of xs >>= λ rest. ok (x ∷ rest)

  unfoldable pub parse_teleop : Dict Value → Result ControlPayload
  parse_teleop body = do
    axes ← array_of (Dict.get body "axes")
    buttons ← array_of (Dict.get body "buttons")
    require (leb (count axes) max_joy_array_len && leb (count buttons) max_joy_array_len)
    xs ← numbers_of axes
    ns ← ints_of buttons
    ok (teleop_payload xs ns)

  unfoldable pub parse_crossing_approval : Dict Value → Result ControlPayload
  parse_crossing_approval body = do
    token_id ← nonempty_str (Dict.get body "token_id")
    crossing_id ← nonempty_str (Dict.get body "crossing_id")
    route_version ← nonempty_str (Dict.get body "route_version")
    datum_version ← nonempty_str (Dict.get body "datum_version")
    entry_heading ← number (Dict.get body "entry_heading")
    expires_at_s ← number (Dict.get body "expires_at_s")
    ok (
        crossing_approval_payload (record {
          token_id = token_id;
          crossing_id = crossing_id;
          route_version = route_version;
          datum_version = datum_version;
          entry_heading = entry_heading;
          expires_at_s = expires_at_s;
        }))

  abbrev pub action_of : Option Value → Result ControlPayload
  action_of (some (str s)) = if has stop_actions s then ok (stop_request_payload s) else err ignored
  action_of none = err ignored
  action_of (some null) = err ignored
  action_of (some (bool b)) = err ignored
  action_of (some (int n)) = err ignored
  action_of (some (num x)) = err ignored
  action_of (some (arr xs)) = err ignored
  action_of (some (obj ms)) = err ignored

  unfoldable pub parse_payload : ControlKind → Dict Value → Result ControlPayload
  unfolding parse_teleop parse_crossing_approval has stop_actions
  parse_payload heartbeat body = ok heartbeat_payload
  parse_payload teleop body = parse_teleop body
  parse_payload stop_request body = action_of (Dict.get body "action")
  parse_payload crossing_approval body = parse_crossing_approval body
  parse_payload authority body = do
    claim ← bool_of (Dict.get body "claim")
    ok (authority_payload claim)

  abbrev pub kind_of : Option Value → Result ControlKind
  kind_of (some (str s)) = elim (control_kind s) [ none ↦ err ignored | some k ↦ ok k ]
  kind_of none = err ignored
  kind_of (some null) = err ignored
  kind_of (some (bool b)) = err ignored
  kind_of (some (int n)) = err ignored
  kind_of (some (num x)) = err ignored
  kind_of (some (arr xs)) = err ignored
  kind_of (some (obj ms)) = err ignored

  unfoldable pub parse_body : Dict Value → Result ControlMessage
  unfolding control_kind same_keys parse_payload
  parse_body body = do
    kind ← kind_of (Dict.get body "kind")
    require (same_keys (keys body) (envelope_keys ++ payload_keys kind))
    session_epoch ← counter (Dict.get body "session_epoch")
    sequence ← counter (Dict.get body "sequence")
    sent_at_s ← number (Dict.get body "sent_at_s")
    payload ← parse_payload kind body
    ok (record {
      kind = kind;
      session_epoch = session_epoch;
      sequence = sequence;
      sent_at_s = sent_at_s;
      payload = payload;
    })

  abbrev pub body_of : Option Value → Result (Dict Value)
  body_of (some (obj ms)) = ok (members_of ms)
  body_of none = err ignored
  body_of (some null) = err ignored
  body_of (some (bool b)) = err ignored
  body_of (some (int n)) = err ignored
  body_of (some (num x)) = err ignored
  body_of (some (str s)) = err ignored
  body_of (some (arr xs)) = err ignored

  unfoldable pub parse_control_message : (String → Option Value) → String → Result ControlMessage
  unfolding parse_body
  parse_control_message loads raw = do body ← body_of (loads raw); parse_body body
