-- ===== src/Link/Parse/Accepted.antt =====
-- What a message that was parsed satisfies.
use miniature_warehouse_robo.Base.{
  suc, ◌≡◌, refl, ap, String, Bool, true, false, ◌&&◌, ◌==◌, Option, none, some, List, ◌++◌, arith,
  all, leb, length, subst, Bool-cases, inl, inr,
}
use miniature_warehouse_robo.Base.Dict
use miniature_warehouse_robo.Base.Dict.{Dict, has}
use miniature_warehouse_robo.Base.Int.{ℤ}
use miniature_warehouse_robo.Base.Float.{Float, is_finite}
use miniature_warehouse_robo.Link.Session.{
  ControlKind, heartbeat, teleop, stop_request, crossing_approval, authority, ControlPayload,
  teleop_payload, ControlMessage,
}
use miniature_warehouse_robo.Link.Values.{
  Value, null, bool, int, num, str, arr, obj, Items, nil, cons, Result, ok, err, ◌>>=◌, require,
  keys, counter, finite, count, ints_of, nonempty_str, bool_of, array_of,
}
use miniature_warehouse_robo.Link.Parse.{
  max_joy_array_len, envelope_keys, payload_keys, stop_actions, same_keys, converted, number,
  numbers_of, kind_of, action_of, body_of, parse_teleop, parse_crossing_approval, parse_payload,
  parse_body, parse_control_message,
}
use miniature_warehouse_robo.Link.Parse.Contract.{fits, is_well_formed}

-- A result, if there is one, has the property.
abbrev Ensures {ℓ} : {A : Type 0} → (A → Type ℓ) → Result A → Type ℓ
Ensures P (ok a) = P a
Ensures P (err e) = Unit

Ensures-bind :
    {A B : Type 0} (Q : A → Type 0) (P : B → Type 0) (m : Result A) (f : A → Result B)
    → Ensures Q m
    → ((a : A) → Q a → Ensures P (f a))
    → Ensures P (m >>= f)
Ensures-bind Q P (ok a) f h k = k a h
Ensures-bind Q P (err e) f h k = tt

Ensures-any : {A : Type 0} (m : Result A) → Ensures (λ a. Unit {0}) m
Ensures-any (ok a) = tt
Ensures-any (err e) = tt

Ensures-require : (b : Bool) → Ensures (λ u. b ≡ true) (require b)
Ensures-require true = refl
Ensures-require false = tt

Ensures-ok : {A : Type 0} (P : A → Type 0) (m : Result A) (a : A) → Ensures P m → m ≡ ok a → P a
Ensures-ok P m a h e = subst (Ensures P) e h

abbrev Finite : Float → Type 0
Finite x = is_finite x ≡ true

Ensures-finite : (x : Float) → Ensures Finite (finite x)
Ensures-finite x = elim (Bool-cases (is_finite x)) [
  | inl yes_finite ↦ rw yes_finite yes_finite
  | inr no_number ↦ rw no_number tt
]

module _ (float_of : ℤ → Option Float) where
  Ensures-converted : (o : Option Float) → Ensures Finite (converted float_of o)
  Ensures-converted none = tt
  Ensures-converted (some x) = Ensures-finite x

  Ensures-number : (v : Option Value) → Ensures Finite (number float_of v)
  Ensures-number (some (int n)) = Ensures-converted (float_of n)
  Ensures-number (some (num x)) = Ensures-finite x
  Ensures-number none = tt
  Ensures-number (some null) = tt
  Ensures-number (some (bool b)) = tt
  Ensures-number (some (str s)) = tt
  Ensures-number (some (arr xs)) = tt
  Ensures-number (some (obj ms)) = tt

  abbrev AllFinite : Items → List Float → Type 0
  AllFinite items xs = (length xs ≡ count items) × (all is_finite xs ≡ true)

  Ensures-numbers_of : (items : Items) → Ensures (AllFinite items) (numbers_of float_of items)
  unfolding all
  Ensures-numbers_of nil = (refl, refl)
  Ensures-numbers_of (cons v items) =
      Ensures-bind Finite (AllFinite (cons v items)) (number float_of (some v)) _
        (Ensures-number (some v))
        (λ x fx.
          Ensures-bind (AllFinite items) (AllFinite (cons v items)) (numbers_of float_of items) _
            (Ensures-numbers_of items) (λ xs h. (ap suc h.0, ground (arith, fx, h.1))))

abbrev AllInts : Items → List ℤ → Type 0
AllInts items ns = length ns ≡ count items

Ensures-ints_of : (items : Items) → Ensures (AllInts items) (ints_of items)
Ensures-ints_of nil = refl
Ensures-ints_of (cons (int n) items) =
    Ensures-bind (AllInts items) (AllInts (cons (int n) items)) (ints_of items) _
      (Ensures-ints_of items) (λ ns h. ap suc h)
Ensures-ints_of (cons null items) = tt
Ensures-ints_of (cons (bool b) items) = tt
Ensures-ints_of (cons (num x) items) = tt
Ensures-ints_of (cons (str s) items) = tt
Ensures-ints_of (cons (arr xs) items) = tt
Ensures-ints_of (cons (obj ms) items) = tt

abbrev Nonempty : String → Type 0
Nonempty s = (s == "") ≡ false

Ensures-nonempty_str : (v : Option Value) → Ensures Nonempty (nonempty_str v)
Ensures-nonempty_str (some (str s)) = elim (Bool-cases (s == "")) [
  | inl empty ↦ rw empty tt
  | inr named ↦ rw named named
]
Ensures-nonempty_str none = tt
Ensures-nonempty_str (some null) = tt
Ensures-nonempty_str (some (bool b)) = tt
Ensures-nonempty_str (some (int n)) = tt
Ensures-nonempty_str (some (num x)) = tt
Ensures-nonempty_str (some (arr xs)) = tt
Ensures-nonempty_str (some (obj ms)) = tt

abbrev Fits : ControlKind → ControlPayload → Type 0
Fits kind payload = fits kind payload ≡ true

module _ (float_of : ℤ → Option Float) (body : Dict Value) where
  bounds_fit :
      (axes buttons : Items) (xs : List Float) (ns : List ℤ)
      → (leb (count axes) max_joy_array_len && leb (count buttons) max_joy_array_len) ≡ true
      → AllFinite float_of axes xs
      → AllInts buttons ns
      → Fits teleop (teleop_payload xs ns)
  bounds_fit axes buttons xs ns h (hx, finite_all) hn = rw (hx, hn) (ground (arith, h, finite_all))

  Ensures-teleop_arrays :
      (axes buttons : Items)
      → Ensures (Fits teleop) (
          require (leb (count axes) max_joy_array_len && leb (count buttons) max_joy_array_len)
          >>= λ u. numbers_of float_of axes >>= λ xs.
              ints_of buttons >>= λ ns. ok (teleop_payload xs ns))
  Ensures-teleop_arrays axes buttons =
      let P = Fits teleop in
      let bound = leb (count axes) max_joy_array_len && leb (count buttons) max_joy_array_len in
      Ensures-bind (λ u. bound ≡ true) P (require bound) _ (Ensures-require bound)
        (λ u hb.
          Ensures-bind (AllFinite float_of axes) P (numbers_of float_of axes) _
            (Ensures-numbers_of float_of axes)
            (λ xs hx.
              Ensures-bind (AllInts buttons) P (ints_of buttons) _ (Ensures-ints_of buttons)
                (λ ns hn. bounds_fit axes buttons xs ns hb hx hn)))

  Ensures-parse_teleop : Ensures (Fits teleop) (parse_teleop float_of body)
  unfolding parse_teleop
  Ensures-parse_teleop =
      Ensures-bind (λ a. Unit {0}) (Fits teleop) (array_of (Dict.get body "axes")) _
        (Ensures-any (array_of (Dict.get body "axes")))
        (λ axes u.
          Ensures-bind (λ b. Unit {0}) (Fits teleop) (array_of (Dict.get body "buttons")) _
            (Ensures-any (array_of (Dict.get body "buttons")))
            (λ buttons v. Ensures-teleop_arrays axes buttons))

  Ensures-action_of : (v : Option Value) → Ensures (Fits stop_request) (action_of float_of v)
  Ensures-action_of (some (str s)) = elim (Bool-cases (has stop_actions s)) [
    | inl known ↦ rw known known
    | inr other ↦ rw other tt
  ]
  Ensures-action_of none = tt
  Ensures-action_of (some null) = tt
  Ensures-action_of (some (bool b)) = tt
  Ensures-action_of (some (int n)) = tt
  Ensures-action_of (some (num x)) = tt
  Ensures-action_of (some (arr xs)) = tt
  Ensures-action_of (some (obj ms)) = tt

  Ensures-parse_crossing_approval :
      Ensures (Fits crossing_approval) (parse_crossing_approval float_of body)
  unfolding parse_crossing_approval
  Ensures-parse_crossing_approval =
      let P = Fits crossing_approval in
      let text = λ (k : String). nonempty_str (Dict.get body k) in
      let named = λ (k : String). Ensures-nonempty_str (Dict.get body k) in
      let number_at = λ (k : String). number float_of (Dict.get body k) in
      let finite_at = λ (k : String). Ensures-number float_of (Dict.get body k) in
      Ensures-bind Nonempty P (text "token_id") _ (named "token_id") (λ a ha.
        Ensures-bind Nonempty P (text "crossing_id") _ (named "crossing_id") (λ b hb.
          Ensures-bind Nonempty P (text "route_version") _ (named "route_version") (λ c hc.
            Ensures-bind Nonempty P (text "datum_version") _ (named "datum_version") (λ d hd.
              Ensures-bind Finite P (number_at "entry_heading") _ (finite_at "entry_heading")
                (λ x hx.
                  Ensures-bind Finite P (number_at "expires_at_s") _ (finite_at "expires_at_s")
                    (λ y hy. ground (arith, ha, hb, hc, hd, hx, hy)))))))

  Ensures-parse_payload :
      (kind : ControlKind) → Ensures (Fits kind) (parse_payload float_of kind body)
  unfolding parse_payload
  Ensures-parse_payload heartbeat = refl
  Ensures-parse_payload teleop = Ensures-parse_teleop
  Ensures-parse_payload stop_request = Ensures-action_of (Dict.get body "action")
  Ensures-parse_payload crossing_approval = Ensures-parse_crossing_approval
  Ensures-parse_payload authority =
      Ensures-bind (λ b. Unit {0}) (Fits authority) (bool_of (Dict.get body "claim")) _
        (Ensures-any (bool_of (Dict.get body "claim"))) (λ b u. refl)

  abbrev WellFormed : ControlMessage → Type 0
  WellFormed m = is_well_formed m ≡ true

  Ensures-parse_body : Ensures WellFormed (parse_body float_of body)
  unfolding parse_body
  Ensures-parse_body =
      let P = WellFormed in
      let any = λ (k : String). Ensures-any (counter (Dict.get body k)) in
      Ensures-bind (λ k. Unit {0}) P (kind_of float_of (Dict.get body "kind")) _
        (Ensures-any (kind_of float_of (Dict.get body "kind")))
        (λ kind a.
          Ensures-bind (λ k. Unit {0}) P
            (require (same_keys (keys body) (envelope_keys ++ payload_keys kind))) _
            (Ensures-any (require (same_keys (keys body) (envelope_keys ++ payload_keys kind))))
            (λ u b.
              Ensures-bind (λ k. Unit {0}) P (counter (Dict.get body "session_epoch")) _
                (any "session_epoch")
                (λ epoch c.
                  Ensures-bind (λ k. Unit {0}) P (counter (Dict.get body "sequence")) _
                    (any "sequence")
                    (λ sequence d.
                      Ensures-bind Finite P (number float_of (Dict.get body "sent_at_s")) _
                        (Ensures-number float_of (Dict.get body "sent_at_s"))
                        (λ sent hs.
                          Ensures-bind (Fits kind) P (parse_payload float_of kind body) _
                            (Ensures-parse_payload kind) (λ payload hp. ground (arith, hs, hp)))))))

-- Whatever the text, a message that the parser returns is well-formed: its time of sending is finite and
-- its payload is one of its kind and within the bounds.
pub accepted_is_well_formed :
    (float_of : ℤ → Option Float) (loads : String → Option Value) (raw : String)
    → (m : ControlMessage) → parse_control_message float_of loads raw ≡ ok m
    → is_well_formed m ≡ true
unfolding parse_control_message
accepted_is_well_formed float_of loads raw m h =
    Ensures-ok (λ k. is_well_formed k ≡ true) (body_of float_of (loads raw) >>= parse_body float_of)
      m
      (Ensures-bind (λ b. Unit {0}) (λ k. is_well_formed k ≡ true) (body_of float_of (loads raw))
        (parse_body float_of) (Ensures-any (body_of float_of (loads raw)))
        (λ body u. Ensures-parse_body float_of body))
      h
