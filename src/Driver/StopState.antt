-- ===== src/Driver/StopState.antt =====
-- stop_state.py of ws/src/warehouse_m1_driver/warehouse_m1_driver: the decoder of a stop_state payload.
-- `json.loads` is the parameter `loads`: its objects keep the order and the repetitions of their keys,
-- `none` stands for the exceptions that it raises, and an integer that `float` cannot hold is `num inf`.
pub mod Contract
use miniature_warehouse_robo.Base.{
  String, Bool, true, false, not, ◌&&◌, ◌||◌, Option, none, some, is_some, if◌then◌else◌,
}
use miniature_warehouse_robo.Base.Float.{Float, nan, micro, is_finite, flt, fle, fadd, fzero}
use miniature_warehouse_robo.Base.Json.{
  Json, null, bool, num, str, arr, obj, Items, nil, cons, Fields, end, field, member,
}
use miniature_warehouse_robo.Safety.Limits.{fmin}
use miniature_warehouse_robo.Driver.Core.{positive_or_default}

abbrev pub default_stop_state_max_validity_s : Float
default_stop_state_max_validity_s = micro 500_000

unfoldable mutual
  unfolding member

  -- Does an object within repeats a key?
  pub repeats_key : Json → Bool
  repeats_key null = false
  repeats_key (bool b) = false
  repeats_key (num x) = false
  repeats_key (str s) = false
  repeats_key (arr xs) = items_repeat_key xs
  repeats_key (obj fs) = fields_repeat_key fs

  pub items_repeat_key : Items → Bool
  items_repeat_key nil = false
  items_repeat_key (cons v xs) = repeats_key v || items_repeat_key xs

  pub fields_repeat_key : Fields → Bool
  fields_repeat_key end = false
  fields_repeat_key (field k v fs) =
      is_some (member fs k) || (repeats_key v || fields_repeat_key fs)

abbrev unique : Option Json → Option Json
unique none = none
unique (some v) = if repeats_key v then none else some v

-- `json.loads(payload, object_pairs_hook=_no_duplicate_keys)`
unfoldable pub loads_no_duplicate_keys : (String → Option Json) → String → Option Json
unfolding repeats_key
loads_no_duplicate_keys loads payload = unique (loads payload)

abbrev pub revoke : Bool × Float
revoke = (true, nan)

-- A deadline that is a positive number, cut off at the ceiling.
abbrev clipped : Bool → Float → Float → Bool × Float
clipped stop_requested valid_until ceiling =
    if not (is_finite valid_until) || fle valid_until fzero
    then revoke
    else (stop_requested, fmin valid_until ceiling)

abbrev with_deadline : Bool → Option Json → Float → Bool × Float
with_deadline stop_requested none ceiling = revoke
with_deadline stop_requested (some null) ceiling = revoke
with_deadline stop_requested (some (bool b)) ceiling = revoke
with_deadline stop_requested (some (num valid_until)) ceiling =
    clipped stop_requested valid_until ceiling
with_deadline stop_requested (some (str s)) ceiling = revoke
with_deadline stop_requested (some (arr xs)) ceiling = revoke
with_deadline stop_requested (some (obj fs)) ceiling = revoke

abbrev of_members : Option Json → Option Json → Float → Bool × Float
of_members none valid_until ceiling = revoke
of_members (some null) valid_until ceiling = revoke
of_members (some (bool stop_requested)) valid_until ceiling =
    with_deadline stop_requested valid_until ceiling
of_members (some (num x)) valid_until ceiling = revoke
of_members (some (str s)) valid_until ceiling = revoke
of_members (some (arr xs)) valid_until ceiling = revoke
of_members (some (obj fs)) valid_until ceiling = revoke

abbrev of_decoded : Option Json → Float → Bool × Float
of_decoded none ceiling = revoke
of_decoded (some null) ceiling = revoke
of_decoded (some (bool b)) ceiling = revoke
of_decoded (some (num x)) ceiling = revoke
of_decoded (some (str s)) ceiling = revoke
of_decoded (some (arr xs)) ceiling = revoke
of_decoded (some (obj fs)) ceiling =
    of_members (member fs "stop_requested") (member fs "valid_until") ceiling

unfoldable pub decode_stop_state : (String → Option Json) → String → Float → Float → Bool × Float
unfolding loads_no_duplicate_keys fmin positive_or_default
decode_stop_state loads payload now max_validity_s =
    let ceiling = fadd now (positive_or_default max_validity_s default_stop_state_max_validity_s) in
    of_decoded (loads_no_duplicate_keys loads payload) ceiling
