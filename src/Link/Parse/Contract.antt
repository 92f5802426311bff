-- ===== src/Link/Parse/Contract.antt =====
-- The messages that the parser lets through, and the one way in which it raises.
use miniature_warehouse_robo.Base.{
  ℕ, suc, ◌≡◌, refl, ap, String, Bool, true, false, not, ◌&&◌, ◌==◌, Option, none, some, List, [],
  ◌∷◌, ◌++◌, arith, all, leb, length,
}
use miniature_warehouse_robo.Base.Dict
use miniature_warehouse_robo.Base.Dict.{Dict, has}
use miniature_warehouse_robo.Base.Int.{ℤ, pos}
use miniature_warehouse_robo.Base.Float.{Float, is_finite}
use miniature_warehouse_robo.Link.Session.{
  ControlKind, heartbeat, teleop, stop_request, crossing_approval, authority, CrossingApprovalToken,
  ControlPayload, heartbeat_payload, teleop_payload, stop_request_payload,
  crossing_approval_payload, authority_payload, ControlMessage,
}
use miniature_warehouse_robo.Link.Values.{
  Value, bool, int, num, str, arr, obj, Items, nil, cons, Members, end, member, raised, ok, err,
  ◌>>=◌, members_of, keys, count, ints_of,
}
use miniature_warehouse_robo.Link.Parse.{
  max_joy_array_len, envelope_keys, payload_keys, control_kind, stop_actions, same_keys, number,
  numbers_of, parse_teleop, parse_crossing_approval, parse_payload, parse_body,
  parse_control_message,
}

abbrev text_of : ControlKind → String
text_of heartbeat = "heartbeat"
text_of teleop = "teleop"
text_of stop_request = "stop_request"
text_of crossing_approval = "crossing_approval"
text_of authority = "authority"

abbrev floats : List Float → Items
floats [] = nil
floats (x ∷ xs) = cons (num x) (floats xs)

abbrev ints : List ℤ → Items
ints [] = nil
ints (n ∷ ns) = cons (int n) (ints ns)

-- The members that carry a payload.
abbrev encode_payload : ControlPayload → Members
encode_payload heartbeat_payload = end
encode_payload (teleop_payload axes buttons) =
    member "axes" (arr (floats axes)) (member "buttons" (arr (ints buttons)) end)
encode_payload (stop_request_payload action) = member "action" (str action) end
encode_payload (crossing_approval_payload t) = member "token_id" (str t.token_id) (
    member "crossing_id" (str t.crossing_id) (
      member "route_version" (str t.route_version) (
        member "datum_version" (str t.datum_version) (
          member "entry_heading" (num t.entry_heading)
            (member "expires_at_s" (num t.expires_at_s) end)))))
encode_payload (authority_payload claim) = member "claim" (bool claim) end

-- A message on the wire, its time of sending given as a value.
abbrev pub encode_at : Value → ControlKind → ℕ → ℕ → ControlPayload → Members
encode_at sent kind epoch sequence payload = member "kind" (str (text_of kind)) (
    member "session_epoch" (int (pos epoch))
      (member "sequence" (int (pos sequence)) (member "sent_at_s" sent (encode_payload payload))))

abbrev pub encode : ControlMessage → Members
encode m = encode_at (num m.sent_at_s) m.kind m.session_epoch m.sequence m.payload

abbrev pub fits_token : CrossingApprovalToken → Bool
fits_token t =
    not (t.token_id == "")
    && (not (t.crossing_id == "")
        && (not (t.route_version == "")
            && (not (t.datum_version == "")
                && (is_finite t.entry_heading && is_finite t.expires_at_s))))

-- The payload is one of the kind, and within its bounds.
abbrev pub fits : ControlKind → ControlPayload → Bool
fits heartbeat heartbeat_payload = true
fits teleop (teleop_payload axes buttons) =
    leb (length axes) max_joy_array_len
    && (leb (length buttons) max_joy_array_len && all is_finite axes)
fits stop_request (stop_request_payload action) = has stop_actions action
fits crossing_approval (crossing_approval_payload token) = fits_token token
fits authority (authority_payload claim) = true
fits kind payload = false

abbrev pub is_well_formed : ControlMessage → Bool
is_well_formed m = is_finite m.sent_at_s && fits m.kind m.payload

module _ (float_of : ℤ → Option Float) where
  numbers_of-floats :
      (xs : List Float) → all is_finite xs ≡ true → numbers_of float_of (floats xs) ≡ ok xs
  unfolding all
  numbers_of-floats [] h = refl
  numbers_of-floats (x ∷ xs) h = ground (arith, numbers_of-floats xs)

ints_of-ints : (ns : List ℤ) → ints_of (ints ns) ≡ ok ns
ints_of-ints [] = refl
ints_of-ints (n ∷ ns) = rw (ints_of-ints ns) refl

count-floats : (xs : List Float) → count (floats xs) ≡ length xs
count-floats [] = refl
count-floats (x ∷ xs) = ap suc (count-floats xs)

count-ints : (ns : List ℤ) → count (ints ns) ≡ length ns
count-ints [] = refl
count-ints (n ∷ ns) = ap suc (count-ints ns)

payload_round :
    (float_of : ℤ → Option Float) (kind : ControlKind) (payload : ControlPayload) (sent : Value)
    → (epoch sequence : ℕ) → fits kind payload ≡ true
    → parse_payload float_of kind (members_of (encode_at sent kind epoch sequence payload))
      ≡ ok payload
unfolding parse_payload parse_teleop parse_crossing_approval Dict.get
payload_round float_of heartbeat heartbeat_payload sent epoch sequence h = refl
payload_round float_of teleop (teleop_payload axes buttons) sent epoch sequence h = ground (
  arith,
  numbers_of-floats float_of axes,
  ints_of-ints buttons,
  count-floats axes,
  count-ints buttons,
)
payload_round float_of stop_request (stop_request_payload action) sent epoch sequence h = rw h refl
payload_round float_of crossing_approval (crossing_approval_payload t) sent epoch sequence h =
    ground arith
payload_round float_of authority (authority_payload claim) sent epoch sequence h = refl
payload_round float_of kind payload sent epoch sequence h = ground arith

keys_round :
    (kind : ControlKind) (payload : ControlPayload) (sent : Value) (epoch sequence : ℕ)
    → fits kind payload ≡ true
    → same_keys
        (keys (members_of (encode_at sent kind epoch sequence payload)))
        (envelope_keys ++ payload_keys kind)
      ≡ true
unfolding same_keys all has
keys_round heartbeat heartbeat_payload sent epoch sequence h = refl
keys_round teleop (teleop_payload axes buttons) sent epoch sequence h = refl
keys_round stop_request (stop_request_payload action) sent epoch sequence h = refl
keys_round crossing_approval (crossing_approval_payload t) sent epoch sequence h = refl
keys_round authority (authority_payload claim) sent epoch sequence h = refl
keys_round kind payload sent epoch sequence h = ground arith

kind_round : (kind : ControlKind) → control_kind (text_of kind) ≡ some kind
unfolding control_kind
kind_round heartbeat = refl
kind_round teleop = refl
kind_round stop_request = refl
kind_round crossing_approval = refl
kind_round authority = refl

body_round :
    (float_of : ℤ → Option Float) (kind : ControlKind) (payload : ControlPayload) (sent : Value)
    → (epoch sequence : ℕ) → fits kind payload ≡ true
    → parse_body float_of (members_of (encode_at sent kind epoch sequence payload)) ≡ (
        number float_of (some sent) >>= λ x. ok (record {
          kind = kind;
          session_epoch = epoch;
          sequence = sequence;
          sent_at_s = x;
          payload = payload;
        }))
unfolding parse_body Dict.get
body_round float_of kind payload sent epoch sequence h =
    let keys_fit = keys_round kind payload sent epoch sequence h in
    let body = payload_round float_of kind payload sent epoch sequence h in
    ground (arith, kind_round kind, keys_fit, body)

-- Every well-formed message comes back from the wire as it was: one with a finite time of sending whose
-- payload is one of its kind and within the bounds.
pub parse-encode :
    (float_of : ℤ → Option Float) (loads : String → Option Value) (raw : String)
    → (m : ControlMessage) → is_well_formed m ≡ true
    → loads raw ≡ some (obj (encode m))
    → parse_control_message float_of loads raw ≡ ok m
unfolding parse_control_message
parse-encode float_of loads raw m h sent =
    let fit : fits m.kind m.payload ≡ true = ground arith in
    let finite_time : is_finite m.sent_at_s ≡ true = ground arith in
    let body =
      body_round float_of m.kind m.payload (num m.sent_at_s) m.session_epoch m.sequence fit in
    rw (sent, body, finite_time) refl

-- A message whose time of sending is an integer that `float` cannot hold, and that is well-formed
-- otherwise, makes the parser raise instead of ignoring it.
pub overflow_raises :
    (float_of : ℤ → Option Float) (loads : String → Option Value) (raw : String) (n : ℤ)
    → (kind : ControlKind) (epoch sequence : ℕ) (payload : ControlPayload)
    → fits kind payload ≡ true
    → float_of n ≡ none
    → loads raw ≡ some (obj (encode_at (int n) kind epoch sequence payload))
    → parse_control_message float_of loads raw ≡ err raised
unfolding parse_control_message
overflow_raises float_of loads raw n kind epoch sequence payload fit too_large sent =
    rw (sent, body_round float_of kind payload (int n) epoch sequence fit, too_large) refl
