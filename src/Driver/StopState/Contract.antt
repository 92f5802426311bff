-- ===== src/Driver/StopState/Contract.antt =====
-- Which payloads the decoder lets through, and with what deadline.
use miniature_warehouse_robo.Base.{
  String, ◌≡◌, refl, Bool, true, false, not, ◌||◌, Option, none, some, arith, Bool-cases, inl, inr,
  ◌⊎◌, ap, subst, sym, ◌∙◌, ◌≢◌,
}
use miniature_warehouse_robo.Base.Float.{Float, nan, is_finite, flt, fle, fadd, fzero}
use miniature_warehouse_robo.Base.Json.{Json, null, bool, num, str, arr, obj, Fields, member}
use miniature_warehouse_robo.Safety.Limits.{fmin}
use miniature_warehouse_robo.Driver.Core.{positive_or_default}
use miniature_warehouse_robo.Driver.StopState.{
  repeats_key, loads_no_duplicate_keys, revoke, decode_stop_state, of_decoded, of_members, unique,
  with_deadline, clipped, default_stop_state_max_validity_s,
}

-- The instant up to which a payload received now can permit driving.
abbrev pub horizon : Float → Float → Float
horizon now max_validity_s =
    fadd now (positive_or_default max_validity_s default_stop_state_max_validity_s)

-- A JSON object without a repeated key, whose stop_requested is a bool and whose valid_until is a
-- positive number.
pub record IsContracted (loads : String → Option Json) (payload : String) (b : Bool) (v : Float)
    : Type 0 where
  pub fields : Fields
  pub parsed : loads payload ≡ some (obj fields)
  pub once : repeats_key (obj fields) ≡ false
  pub stop_requested : member fields "stop_requested" ≡ some (bool b)
  pub valid_until : member fields "valid_until" ≡ some (num v)
  pub number : is_finite v ≡ true
  pub positive : fle v fzero ≡ false

Members : Option Json → Option Json → Bool → Float → Type 0
Members m n b v =
    (m ≡ some (bool b)) × (n ≡ some (num v)) × (is_finite v ≡ true) × (fle v fzero ≡ false)

clipped-cases :
    (b : Bool) (v ceiling : Float)
    → ((is_finite v ≡ true) × (fle v fzero ≡ false) × (clipped b v ceiling ≡ (b, fmin v ceiling)))
      ⊎ (clipped b v ceiling ≡ revoke)
clipped-cases b v ceiling = elim (Bool-cases (not (is_finite v) || fle v fzero)) [
  | inl bad ↦ inr (rw bad refl)
  | inr good ↦ inl (ground arith, ground arith, rw good refl)
]

deadline-cases :
    (b : Bool) (n : Option Json) (ceiling : Float)
    → ((v : Float) × Members (some (bool b)) n b v
        × (with_deadline b n ceiling ≡ (b, fmin v ceiling)))
      ⊎ (with_deadline b n ceiling ≡ revoke)
unfolding Members
deadline-cases b none ceiling = inr refl
deadline-cases b (some null) ceiling = inr refl
deadline-cases b (some (bool c)) ceiling = inr refl
deadline-cases b (some (num v)) ceiling = elim (clipped-cases b v ceiling) [
  | inl (number, positive, e) ↦ inl (v, (refl, refl, number, positive), e)
  | inr e ↦ inr e
]
deadline-cases b (some (str s)) ceiling = inr refl
deadline-cases b (some (arr xs)) ceiling = inr refl
deadline-cases b (some (obj fs)) ceiling = inr refl

Members-cases :
    (m n : Option Json) (ceiling : Float)
    → ((b : Bool) × (v : Float) × Members m n b v × (of_members m n ceiling ≡ (b, fmin v ceiling)))
      ⊎ (of_members m n ceiling ≡ revoke)
Members-cases none n ceiling = inr refl
Members-cases (some null) n ceiling = inr refl
Members-cases (some (bool b)) n ceiling = elim (deadline-cases b n ceiling) [
  | inl (v, found, e) ↦ inl (b, v, found, e)
  | inr e ↦ inr e
]
Members-cases (some (num x)) n ceiling = inr refl
Members-cases (some (str s)) n ceiling = inr refl
Members-cases (some (arr xs)) n ceiling = inr refl
Members-cases (some (obj fs)) n ceiling = inr refl

Decoded : Option Json → Float → Type 0
Decoded o ceiling =
    ((fs : Fields) × (b : Bool) × (v : Float) × (o ≡ some (obj fs))
      × Members (member fs "stop_requested") (member fs "valid_until") b v
      × (of_decoded o ceiling ≡ (b, fmin v ceiling)))
    ⊎ (of_decoded o ceiling ≡ revoke)

Decoded-cases : (o : Option Json) (ceiling : Float) → Decoded o ceiling
unfolding Decoded
Decoded-cases none ceiling = inr refl
Decoded-cases (some null) ceiling = inr refl
Decoded-cases (some (bool b)) ceiling = inr refl
Decoded-cases (some (num x)) ceiling = inr refl
Decoded-cases (some (str s)) ceiling = inr refl
Decoded-cases (some (arr xs)) ceiling = inr refl
Decoded-cases (some (obj fs)) ceiling =
    elim (Members-cases (member fs "stop_requested") (member fs "valid_until") ceiling) [
      | inl (b, v, found, e) ↦ inl (fs, b, v, refl, found, e)
      | inr e ↦ inr e
    ]

fmin-horizon : (v ceiling : Float) → flt ceiling (fmin v ceiling) ≡ false
unfolding fmin flt
fmin-horizon v ceiling = ground arith

flt_nan : (x : Float) → flt x nan ≡ false
unfolding flt
flt_nan x = ground arith

-- No permission goes beyond the horizon.
pub decoded-horizon :
    (loads : String → Option Json) (payload : String) (now max_validity_s : Float)
    → flt (horizon now max_validity_s) (decode_stop_state loads payload now max_validity_s).1
      ≡ false
unfolding decode_stop_state Decoded
decoded-horizon loads payload now max_validity_s =
    let h = horizon now max_validity_s in
    elim (Decoded-cases (loads_no_duplicate_keys loads payload) h) [
      | inl (fs, b, v, parsed, found, e) ↦ rw e (fmin-horizon v h)
      | inr e ↦ rw e (flt_nan h)
    ]

unique_obj :
    (o : Option Json) {fs : Fields}
    → unique o ≡ some (obj fs)
    → (o ≡ some (obj fs)) × (repeats_key (obj fs) ≡ false)
unique_obj none h = absurd (cc)
unique_obj (some v) {fs} h = elim (Bool-cases (repeats_key v)) [
  | inl again ↦
      let bad : ◌≡◌ {A = Option Json} none (some (obj fs)) = ground (arith, again) in absurd (cc)
  | inr once ↦
      let same : v ≡ obj fs = ground (arith, once) in
      (ap some same, subst (λ w. repeats_key w ≡ false) same once)
]

passes :
    (loads : String → Option Json) (payload : String) (b : Bool) (v ceiling : Float)
    → IsContracted loads payload b v
    → of_decoded (loads_no_duplicate_keys loads payload) ceiling ≡ (b, fmin v ceiling)
unfolding loads_no_duplicate_keys
passes loads payload b v ceiling h =
    simp (h.parsed, h.once, h.stop_requested, h.valid_until, h.number, h.positive)

not_revoked : (b : Bool) (v ceiling : Float) → is_finite v ≡ true → (b, fmin v ceiling) ≢ revoke
unfolding fmin flt is_finite
not_revoked b v ceiling number e =
    let bad : fmin v ceiling ≡ nan = ap (λ (d : Bool × Float). d.1) e in ground arith

-- A payload of the contracted shape is passed on, its deadline cut off at the horizon; every other
-- payload, whatever is wrong with it, revokes the permission.
pub decode_stop_state-contract :
    (loads : String → Option Json) (payload : String) (now max_validity_s : Float)
    → let decoded = decode_stop_state loads payload now max_validity_s in
      ((b : Bool) × (v : Float) × IsContracted loads payload b v
        × (decoded ≡ (b, fmin v (horizon now max_validity_s))))
      ⊎ (((b : Bool) (v : Float) → ¬ IsContracted loads payload b v) × (decoded ≡ revoke))
unfolding decode_stop_state Decoded Members
decode_stop_state-contract loads payload now max_validity_s =
    let at : Float = horizon now max_validity_s in
    elim (Decoded-cases (loads_no_duplicate_keys loads payload) at) [
      | inr e ↦
          inr (λ b v h. not_revoked b v at h.number (sym (passes loads payload b v at h) ∙ e), e)
      | inl (fs, b, v, parsed, (stop, until, number, positive), e) ↦
          let (read, once) = unique_obj (loads payload) parsed in
          inl (
            b,
            v,
            record {
              fields = fs;
              parsed = read;
              once = once;
              stop_requested = stop;
              valid_until = until;
              number = number;
              positive = positive;
            },
            e,
          )
    ]
