-- ===== src/Link/Parse/Witnesses.antt =====
-- The theorems of the parser at concrete texts.
use miniature_warehouse_robo.Base.{
  ◌^◌, ◌≡◌, refl, String, true, ◌==◌, Option, none, some, [], ◌∷◌, all, leb, if◌then◌else◌,
}
use miniature_warehouse_robo.Base.Dict
use miniature_warehouse_robo.Base.Dict.{has}
use miniature_warehouse_robo.Base.Int.{ℤ, pos, negsuc}
use miniature_warehouse_robo.Base.Float.{Float, units, micro, is_finite}
use miniature_warehouse_robo.Link.Session.{
  ControlMessage, CrossingApprovalToken, teleop, crossing_approval, teleop_payload,
  crossing_approval_payload,
}
use miniature_warehouse_robo.Link.Values.{Value, obj, int, raised, ok, err}
use miniature_warehouse_robo.Link.Parse.{
  parse_control_message, parse_body, parse_payload, parse_teleop, control_kind, same_keys,
}
use miniature_warehouse_robo.Link.Parse.Contract.{
  encode, encode_at, is_well_formed, fits, parse-encode, overflow_raises,
}
use miniature_warehouse_robo.Link.Parse.Accepted.{accepted_is_well_formed}

-- `float` of an integer, which overflows from 2 ^ 1024 on.
abbrev float_of : ℤ → Option Float
float_of (pos n) = if leb (2 ^ 1024) n then none else some (units n)
float_of (negsuc n) = none

abbrev drive : ControlMessage
drive = record {
  kind = teleop;
  session_epoch = 1;
  sequence = 5;
  sent_at_s = units 10;
  payload = teleop_payload (micro 500_000 ∷ []) (pos 1 ∷ []);
}

abbrev token : CrossingApprovalToken
token = record {
  token_id = "t1";
  crossing_id = "c1";
  route_version = "r1";
  datum_version = "d1";
  entry_heading = units 0;
  expires_at_s = units 20;
}

-- The second text has a time of sending that no float holds.
abbrev loads : String → Option Value
loads text =
    if text == "drive"
    then some (obj (encode drive))
    else if text == "late"
    then some (
        obj (
          encode_at (int (pos (2 ^ 1030))) crossing_approval 1 6 (crossing_approval_payload token)))
    else none

drive-is_well_formed : is_well_formed drive ≡ true
unfolding is_finite all
drive-is_well_formed = refl

token_fits : fits crossing_approval (crossing_approval_payload token) ≡ true
unfolding is_finite
token_fits = refl

drive_parsed : parse_control_message float_of loads "drive" ≡ ok drive
unfolding parse_control_message parse_body parse_payload parse_teleop control_kind same_keys all has
    is_finite Dict.get
drive_parsed = refl

parse-encode_example : parse_control_message float_of loads "drive" ≡ ok drive
parse-encode_example = parse-encode float_of loads "drive" drive drive-is_well_formed refl

accepted_is_well_formed_example : is_well_formed drive ≡ true
accepted_is_well_formed_example = accepted_is_well_formed float_of loads "drive" drive drive_parsed

overflow_raises_example : parse_control_message float_of loads "late" ≡ err raised
overflow_raises_example =
    overflow_raises float_of loads "late" (pos (2 ^ 1030)) crossing_approval 1 6
      (crossing_approval_payload token) token_fits refl refl
