-- ===== src/Tools/Replay/Once.antt =====
-- A call that was accepted is refused when it is repeated.
use miniature_warehouse_robo.Base.{
  ℕ, ◌+◌, ◌≤◌, ◌≡◌, String, Bool, true, false, ◌&&◌, ◌||◌, ◌==◌, Option, none, some, List, [], ◌∷◌,
  arith, ltb, leb, is_some, eq_iff, Bool-cases, Option-cases, inl, inr,
}
use miniature_warehouse_robo.Base.Dict
use miniature_warehouse_robo.Base.Dict.{Dict, get-put, ==-refl}
use miniature_warehouse_robo.Tools.Replay.{
  idempotency_window_gens, Stores, current_gen, is_stale, evict, check_and_add, check, publish,
}

pub data Op : Type 0 where
  published : ℕ → Op
  called : ℕ → Option String → Op

abbrev pub perform : Stores → Op → Stores
perform s (published gen) = publish s gen
perform s (called gen_id key) = (check s gen_id key).0

abbrev pub perform_all : Stores → List Op → Stores
perform_all s [] = s
perform_all s (op ∷ ops) = perform_all (perform s op) ops

-- Generations are published in order, and no call runs ahead of the published one by more than the window.
abbrev orderly : Stores → Op → Bool
orderly s (published gen) = leb (current_gen s.gen) gen
orderly s (called gen_id key) = leb gen_id (current_gen s.gen + idempotency_window_gens)

abbrev pub orderly_all : Stores → List Op → Bool
orderly_all s [] = true
orderly_all s (op ∷ ops) = orderly s op && orderly_all (perform s op) ops

abbrev at_least : Option ℕ → ℕ → Bool
at_least none g = false
at_least (some h) g = leb g h

-- The key is spent for the generations up to g: it is recorded at g or later, or g is over.
abbrev spent : Stores → String → ℕ → Bool
spent s key g = ltb g (current_gen s.gen) || at_least (Dict.get s.consumed key) g

pub get-evict :
    (consumed : Dict ℕ) (gen : ℕ) (key : String) {h : ℕ}
    → Dict.get consumed key ≡ some h
    → leb gen (h + idempotency_window_gens) ≡ true
    → Dict.get (evict consumed gen) key ≡ some h
unfolding Dict.get evict
get-evict [] gen key e kept = e
get-evict ((k, g) ∷ consumed) gen key {h} e kept = elim (Bool-cases (k == key)) [
  | inl same ↦ let here : g ≡ h = ground (arith, e, same) in ground (arith, same, here, kept)
  | inr differs ↦
      let rest = get-evict consumed gen key (ground (arith, e, differs)) kept in
      ground (arith, differs, rest)
]

spent-check :
    (s : Stores) (key : String) (g gen_id : ℕ) (k : Option String)
    → orderly s (called gen_id k) ≡ true
    → spent s key g ≡ true
    → spent (check s gen_id k).0 key g ≡ true
unfolding check is_stale check_and_add
spent-check s key g gen_id none fits h = ground arith
spent-check s key g gen_id (some k) fits h = elim (Option-cases (Dict.get s.consumed key)) [
  | inl nothing ↦ ground (arith, nothing)
  | inr (n, old) ↦
      let put = get-put s.consumed k key gen_id in
      let kept = get-evict (Dict.put s.consumed k gen_id) gen_id key {h = n} in
      ground (arith, old, put, kept, eq_iff k key)
]

spent-perform_all :
    (s : Stores) (key : String) (g : ℕ) (ops : List Op)
    → orderly_all s ops ≡ true
    → spent s key g ≡ true
    → spent (perform_all s ops) key g ≡ true
spent-perform_all s key g [] fits h = h
spent-perform_all s key g (published gen ∷ ops) fits h =
    spent-perform_all (publish s gen) key g ops (ground arith) (ground arith)
spent-perform_all s key g (called gen_id k ∷ ops) fits h =
    let first = spent-check s key g gen_id k (ground arith) h in
    spent-perform_all (check s gen_id k).0 key g ops (ground arith) first

spent-accepted :
    (s : Stores) (key : String) (g : ℕ)
    → (check s g (some key)).1 ≡ none
    → spent (check s g (some key)).0 key g ≡ true
unfolding check is_stale check_and_add
spent-accepted s key g ok = elim (Option-cases (Dict.get s.consumed key)) [
  | inr (n, old) ↦ ground (arith, old, ok)
  | inl new ↦
      let put = get-put s.consumed key key g in
      let same = ==-refl key in
      let kept = get-evict (Dict.put s.consumed key g) g key {h = g} in
      ground (arith, new, put, same, kept)
]

spent-refused :
    (s : Stores) (key : String) (g again : ℕ)
    → again ≤ g
    → spent s key g ≡ true
    → (is_some (check s again (some key)).1 ≡ true) × ((check s again (some key)).0 ≡ s)
unfolding check is_stale check_and_add
spent-refused s key g again earlier h = elim (Option-cases (Dict.get s.consumed key)) [
  | inl nothing ↦ (ground (arith, nothing), ground (arith, nothing))
  | inr (n, old) ↦ (ground (arith, old), ground (arith, old))
]

-- A call with a key that was accepted at a generation is refused whenever it is repeated at that generation
-- or an earlier one, and the refusal changes no store: after any calls and publications, although the
-- store forgets keys, as long as the generations are published in order and no call runs ahead of the
-- published generation by more than the window.
pub replay_refused :
    (s : Stores) (key : String) (g again : ℕ) (ops : List Op)
    → (check s g (some key)).1 ≡ none
    → orderly_all (check s g (some key)).0 ops ≡ true
    → again ≤ g
    → let s' = perform_all (check s g (some key)).0 ops in
      (is_some (check s' again (some key)).1 ≡ true) × ((check s' again (some key)).0 ≡ s')
replay_refused s key g again ops ok fits earlier =
    let s' = perform_all (check s g (some key)).0 ops in
    let taken = spent-accepted s key g ok in
    spent-refused s' key g again earlier
      (spent-perform_all (check s g (some key)).0 key g ops fits taken)
