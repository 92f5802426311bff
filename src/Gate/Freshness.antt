-- ===== src/Gate/Freshness.antt =====
-- The windows that a configuration may only tighten: `FreshnessThresholds` and
-- `freshness_from_config` of policy_gate.py, `_validate_clear_after` and `clear_after_from_config` of
-- emergency_sync.py (ws/src/warehouse_mcp_server/warehouse_mcp_server). `none` stands for the
-- `ValueError` that refuses startup.
pub mod Bounds
use miniature_warehouse_robo.Base.{
  String, ◌≡◌, refl, Bool, true, false, not, Option, none, some, ◌&&◌, ◌||◌, ◌==◌, arith,
  Option-cases, inl, inr, if◌then◌else◌,
}
use miniature_warehouse_robo.Base.Json.{
  Json, Fields, null, bool, num, str, arr, obj, end, field, member,
}
use miniature_warehouse_robo.Base.Float.{
  Float, is_finite, flt, fle, fzero, micro, units, not-flt, not-fle,
}

abbrev pub default_stale_after_s : Float
default_stale_after_s = micro 500_000

abbrev pub default_unavailable_after_s : Float
default_unavailable_after_s = units 2

pub record FreshnessThresholds : Type 0 where
  pub stale_after_s : Float
  pub unavailable_after_s : Float

-- A number; `bool` is none.
abbrev number : Json → Option Float
number (num x) = some x
number null = none
number (bool b) = none
number (str s) = none
number (arr xs) = none
number (obj fs) = none

-- One turn of the loop in `__post_init__`.
abbrev window : Option Float → Float → Option Float
window none ceiling = none
window (some value) ceiling =
    if not (is_finite value)
    then none
    else if fle value fzero
    then none
    else if flt ceiling value
    then none
    else some value

abbrev ordered : Option Float → Option Float → Option FreshnessThresholds
ordered none unavailable = none
ordered (some stale) none = none
ordered (some stale) (some unavailable) =
    if flt unavailable stale
    then none
    else some (record { stale_after_s = stale; unavailable_after_s = unavailable })

-- `FreshnessThresholds(stale_after_s, unavailable_after_s)`
unfoldable pub freshness_thresholds : Json → Json → Option FreshnessThresholds
freshness_thresholds stale unavailable =
    ordered (window (number stale) default_stale_after_s)
      (window (number unavailable) default_unavailable_after_s)

abbrev member_or : Fields → String → Json → Json
member_or fs k default = elim (member fs k) [ none ↦ default | some v ↦ v ]

abbrev pub no_fields : Option Fields → Fields
no_fields none = end
no_fields (some fs) = fs

-- What `freshness_from_config` does with the value under `policy_gate`.
abbrev freshness_from_block : Option Json → Option FreshnessThresholds
freshness_from_block none =
    freshness_thresholds (num default_stale_after_s) (num default_unavailable_after_s)
freshness_from_block (some null) =
    freshness_thresholds (num default_stale_after_s) (num default_unavailable_after_s)
freshness_from_block (some (bool b)) = none
freshness_from_block (some (num x)) = none
freshness_from_block (some (str s)) = none
freshness_from_block (some (arr xs)) = none
freshness_from_block (some (obj fs)) =
    freshness_thresholds (member_or fs "stale_after_s" (num default_stale_after_s))
      (member_or fs "unavailable_after_s" (num default_unavailable_after_s))

unfoldable pub freshness_from_config : Option Fields → Option FreshnessThresholds
freshness_from_config config = freshness_from_block (member (no_fields config) "policy_gate")

abbrev pub emergency_clear_after_s : Float
emergency_clear_after_s = units 1

abbrev hold : Option Float → Option Float
hold none = none
hold (some value) =
    if not (is_finite value)
    then none
    else if fle value fzero
    then none
    else if flt value emergency_clear_after_s
    then none
    else some value

unfoldable pub validate_clear_after : Json → Option Float
validate_clear_after value = hold (number value)

abbrev clear_after_from_block : Option Json → Option Float
clear_after_from_block none = some emergency_clear_after_s
clear_after_from_block (some null) = some emergency_clear_after_s
clear_after_from_block (some (bool b)) = none
clear_after_from_block (some (num x)) = none
clear_after_from_block (some (str s)) = none
clear_after_from_block (some (arr xs)) = none
clear_after_from_block (some (obj fs)) = elim (member fs "emergency_clear_after_s") [
  | none ↦ some emergency_clear_after_s
  | some v ↦ validate_clear_after v
]

unfoldable pub clear_after_from_config : Option Fields → Option Float
clear_after_from_config config = clear_after_from_block (member (no_fields config) "policy_gate")
