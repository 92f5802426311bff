-- ===== src/Gate/Freshness/Bounds.antt =====
-- What an accepted configuration guarantees.
use miniature_warehouse_robo.Base.{
  ◌≡◌, refl, true, Option, none, some, arith, Option-cases, inl, inr,
}
use miniature_warehouse_robo.Base.Json.{Json, Fields, null, bool, num, str, arr, obj, member}
use miniature_warehouse_robo.Base.Float.{Float, is_finite, flt, fle, fzero, not-flt, not-fle}
use miniature_warehouse_robo.Gate.Freshness.{
  FreshnessThresholds, default_stale_after_s, default_unavailable_after_s, emergency_clear_after_s,
  number, window, ordered, freshness_thresholds, member_or, no_fields, freshness_from_block,
  freshness_from_config, hold, validate_clear_after, clear_after_from_block,
  clear_after_from_config,
}

-- Windows inside the frozen defaults.
pub record IsTight (t : FreshnessThresholds) : Type 0 where
  stale_positive : flt fzero t.stale_after_s ≡ true
  stale_within : fle t.stale_after_s default_stale_after_s ≡ true
  unavailable_positive : flt fzero t.unavailable_after_s ≡ true
  unavailable_within : fle t.unavailable_after_s default_unavailable_after_s ≡ true
  in_order : fle t.stale_after_s t.unavailable_after_s ≡ true

zero_finite : is_finite fzero ≡ true
unfolding is_finite
zero_finite = refl

floor_finite : is_finite emergency_clear_after_s ≡ true
unfolding is_finite
floor_finite = refl

window-bounds :
    (o : Option Float) (ceiling x : Float)
    → is_finite ceiling ≡ true
    → window o ceiling ≡ some x
    → (is_finite x ≡ true) × (flt fzero x ≡ true) × (fle x ceiling ≡ true)
window-bounds none ceiling x f h = cc
window-bounds (some v) ceiling x f h =
    ground (arith, zero_finite, not-fle v fzero, not-flt ceiling v)

ordered-bounds :
    (stale unavailable : Float) {t : FreshnessThresholds}
    → is_finite stale ≡ true
    → is_finite unavailable ≡ true
    → ordered (some stale) (some unavailable) ≡ some t
    → (t.stale_after_s ≡ stale)
      × (t.unavailable_after_s ≡ unavailable)
      × (fle stale unavailable ≡ true)
ordered-bounds stale unavailable f g h = ground (arith, not-flt unavailable stale g f)

ceilings_finite :
    (is_finite default_stale_after_s ≡ true) × (is_finite default_unavailable_after_s ≡ true)
unfolding is_finite
ceilings_finite = (refl, refl)

ordered-IsTight :
    (o p : Option Float) {t : FreshnessThresholds}
    → ordered (window o default_stale_after_s) (window p default_unavailable_after_s) ≡ some t
    → IsTight t
ordered-IsTight o p {t} h = elim (Option-cases (window o default_stale_after_s)) [
  | inl bad ↦ absurd (cc (h, bad))
  | inr (s, stale) ↦ elim (Option-cases (window p default_unavailable_after_s)) [
    | inl bad ↦ absurd (cc (h, stale, bad))
    | inr (u, unavailable) ↦
        let a = window-bounds o default_stale_after_s s ceilings_finite.0 stale in
        let b = window-bounds p default_unavailable_after_s u ceilings_finite.1 unavailable in
        let e = rw (stale, unavailable) at h in
        let c = ordered-bounds s u a.0 b.0 e in
        record {
          stale_positive = rw c.0 a.1;
          stale_within = rw c.0 a.2;
          unavailable_positive = rw c.1 b.1;
          unavailable_within = rw c.1 b.2;
          in_order = rw (c.0, c.1) c.2;
        }
  ]
]

freshness_from_block-IsTight :
    (block : Option Json) {t : FreshnessThresholds}
    → freshness_from_block block ≡ some t
    → IsTight t
unfolding freshness_thresholds
freshness_from_block-IsTight none h =
    ordered-IsTight (some default_stale_after_s) (some default_unavailable_after_s) h
freshness_from_block-IsTight (some null) h =
    ordered-IsTight (some default_stale_after_s) (some default_unavailable_after_s) h
freshness_from_block-IsTight (some (bool b)) h = absurd (cc h)
freshness_from_block-IsTight (some (num x)) h = absurd (cc h)
freshness_from_block-IsTight (some (str x)) h = absurd (cc h)
freshness_from_block-IsTight (some (arr xs)) h = absurd (cc h)
freshness_from_block-IsTight (some (obj fs)) h =
    ordered-IsTight (number (member_or fs "stale_after_s" (num default_stale_after_s)))
      (number (member_or fs "unavailable_after_s" (num default_unavailable_after_s))) h

-- Whatever a configuration says, if it is accepted at all, both freshness windows are positive and at
-- most the frozen defaults, and the stale window is at most the unavailable one.
pub freshness_from_config-IsTight :
    (config : Option Fields) {t : FreshnessThresholds}
    → freshness_from_config config ≡ some t
    → IsTight t
unfolding freshness_from_config
freshness_from_config-IsTight config h =
    freshness_from_block-IsTight (member (no_fields config) "policy_gate") h

hold-floor :
    (o : Option Float) (x : Float)
    → hold o ≡ some x
    → (is_finite x ≡ true) × (fle emergency_clear_after_s x ≡ true)
hold-floor none x h = cc
hold-floor (some v) x h =
    ground (arith, zero_finite, not-flt v emergency_clear_after_s, floor_finite)

clear_after_from_block-floor :
    (block : Option Json) {x : Float}
    → clear_after_from_block block ≡ some x
    → (is_finite x ≡ true) × (fle emergency_clear_after_s x ≡ true)
unfolding validate_clear_after is_finite fle
clear_after_from_block-floor none h = ground arith
clear_after_from_block-floor (some null) h = ground arith
clear_after_from_block-floor (some (bool b)) h = absurd (cc h)
clear_after_from_block-floor (some (num x)) h = absurd (cc h)
clear_after_from_block-floor (some (str x)) h = absurd (cc h)
clear_after_from_block-floor (some (arr xs)) h = absurd (cc h)
clear_after_from_block-floor (some (obj fs)) {x} h =
    elim (Option-cases (member fs "emergency_clear_after_s")) [
      | inl unset ↦ ground arith
      | inr (v, set) ↦ hold-floor (number v) x (ground arith)
    ]

-- Whatever a configuration says, if it is accepted at all, the emergency hold lasts a finite time of at
-- least one second.
pub clear_after_from_config-floor :
    (config : Option Fields) {x : Float}
    → clear_after_from_config config ≡ some x
    → (is_finite x ≡ true) × (fle emergency_clear_after_s x ≡ true)
unfolding clear_after_from_config
clear_after_from_config-floor config h =
    clear_after_from_block-floor (member (no_fields config) "policy_gate") h
