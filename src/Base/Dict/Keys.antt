-- ===== src/Base/Dict/Keys.antt =====
-- Dictionaries with one entry for each key.
use miniature_warehouse_robo.Base.Tests.{Bool-cases}
use miniature_warehouse_robo.Base.Dict.{Dict, get, put, pop, get-put, get-pop}
use Prim.Native.String.{String}
use mathlib.Core.Path.{◌≡◌, refl}
use mathlib.Core.Logic.{inl, inr}
use mathlib.Core.Option.{none}
use mathlib.Core.List.{[], ◌∷◌}
use native.Mathlib.Omega.{arith}
use text.Mathlib.Text.{◌==◌}
use text.Mathlib.TextEquality.{eq_iff}

module _ {ℓ} {V : Type ℓ} where
  abbrev pub Uniq : Dict V → Type ℓ
  Uniq [] = Unit
  Uniq ((k, v) ∷ d) = (get d k ≡ none) × Uniq d

  pub Uniq-put : (d : Dict V) (k : String) (v : V) → Uniq d → Uniq (put d k v)
  unfolding put get
  Uniq-put [] k v u = (refl, tt)
  Uniq-put ((j, w) ∷ d) k v u = elim (Bool-cases (j == k)) [
    | inl same ↦ rw same u
    | inr other ↦
        rw other (ground (arith, get-put d k j v, eq_iff k j, eq_iff j k, u.0), Uniq-put d k v u.1)
  ]

  pub Uniq-pop : (d : Dict V) (k : String) → Uniq d → Uniq (pop d k)
  unfolding pop
  Uniq-pop [] k u = tt
  Uniq-pop ((j, w) ∷ d) k u = elim (Bool-cases (j == k)) [
    | inl same ↦ rw same (Uniq-pop d k u.1)
    | inr other ↦ rw other (ground (arith, get-pop d k j, u.0), Uniq-pop d k u.1)
  ]
