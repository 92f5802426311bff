-- ===== src/Base/Dict.antt =====
-- Python's `dict` and `set` with text keys: an association list in the order of insertion.
pub mod Keys
use Prim.Native.String.{String}
use mathlib.Core.Path.{◌≡◌, refl}
use mathlib.Core.Bool.{true, Bool, false, not, ◌||◌, ◌&&◌}
use mathlib.Core.Logic.{inl, inr}
use mathlib.Core.Option.{Option, none, some}
use mathlib.Core.List.{List, [], ◌∷◌}
use native.Mathlib.Omega.{arith}
use text.Mathlib.Text.{◌==◌}
use text.Mathlib.TextEquality.{eq_iff}
use miniature_warehouse_robo.Base.Tests.{if◌then◌else◌, Bool-cases}

abbrev pub Dict {ℓ} : Type ℓ → Type ℓ
Dict V = List (String × V)

pub ==-refl : (s : String) → (s == s) ≡ true
==-refl s = (eq_iff s s).1 refl

module _ {ℓ} {V : Type ℓ} where
  -- `d.get(k)`
  unfoldable pub get : Dict V → String → Option V
  get [] k = none
  get ((j, v) ∷ d) k = if j == k then some v else get d k

  -- `d[k] = v`: a key that is there keeps its place.
  unfoldable pub put : Dict V → String → V → Dict V
  put [] k v = (k, v) ∷ []
  put ((j, w) ∷ d) k v = if j == k then (j, v) ∷ d else (j, w) ∷ put d k v

  -- `d.pop(k, None)`
  pub pop : Dict V → String → Dict V
  pop [] k = []
  pop ((j, w) ∷ d) k = let rest = pop d k in if j == k then rest else (j, w) ∷ rest

  pub get-put :
      (d : Dict V) (k j : String) (v : V) → get (put d k v) j ≡ (if k == j then some v else get d j)
  unfolding get put
  get-put [] k j v = refl
  get-put ((i, w) ∷ d) k j v = ground (arith, eq_iff k j, eq_iff i k, eq_iff i j, get-put d k j v)

  pub get-pop : (d : Dict V) (k j : String) → get (pop d k) j ≡ (if k == j then none else get d j)
  unfolding get pop
  get-pop [] k j = ground arith
  get-pop ((i, w) ∷ d) k j = ground (arith, eq_iff k j, eq_iff i k, eq_iff i j, get-pop d k j)

  pub get-put_self : (d : Dict V) (k : String) (v : V) → get (put d k v) k ≡ some v
  get-put_self d k v = rw (get-put, ==-refl)

  pub get-put_ne :
      (d : Dict V) (k j : String) (v : V) → (k == j) ≡ false → get (put d k v) j ≡ get d j
  get-put_ne d k j v h = rw (get-put, h)

  pub get-pop_self : (d : Dict V) (k : String) → get (pop d k) k ≡ none
  get-pop_self d k = rw (get-pop, ==-refl)

  pub pop-missing : (d : Dict V) (k : String) → get d k ≡ none → pop d k ≡ d
  unfolding get pop
  pop-missing [] k h = refl
  pop-missing ((j, w) ∷ d) k h = ground (arith, pop-missing d k, h)

-- `k in s`, for a set given as a list
unfoldable pub has : List String → String → Bool
has [] k = false
has (j ∷ s) k = j == k || has s k

-- `s.add(k)`
pub add : List String → String → List String
unfolding has
add s k = if has s k then s else k ∷ s

-- `s.discard(k)`
pub discard : List String → String → List String
discard [] k = []
discard (j ∷ s) k = let rest = discard s k in if j == k then rest else j ∷ rest

pub has-add : (s : List String) (k j : String) → has (add s k) j ≡ (k == j || has s j)
unfolding add has
has-add s k j = elim (Bool-cases (has s k)) [
  | inl old ↦ rw old (elim (Bool-cases (k == j)) [
    | inl same ↦ let e : k ≡ j = (eq_iff k j).0 same in rw (same, ← e) old
    | inr other ↦ rw other
  ])
  | inr new ↦ rw new
]

pub has-discard : (s : List String) (k j : String) → has (discard s k) j ≡ (not (k == j) && has s j)
unfolding discard has
has-discard [] k j = ground arith
has-discard (i ∷ s) k j = ground (arith, eq_iff k j, eq_iff i k, eq_iff i j, has-discard s k j)
