-- ===== src/Safety/Motion/Totals.antt =====
-- Dictionaries of totals that only grow.
use miniature_warehouse_robo.Base.{
  ◌≡◌, String, true, ◌==◌, eq_iff, arith, Bool-cases, inl, inr, if◌then◌else◌,
}
use miniature_warehouse_robo.Base.Dict
use miniature_warehouse_robo.Base.Dict.{Dict, get-put, get-pop}
use miniature_warehouse_robo.Base.Float.{
  Float, fle, fadd, fzero, fle_refl_nonneg, fle-fadd, fle_trans,
}
use miniature_warehouse_robo.Safety.Motion.{get_or, set_default}

-- A dictionary of totals, none of them negative.
abbrev pub IsNonneg : Dict Float → Type 0
IsNonneg d = (bot : String) → fle fzero (get_or d bot fzero) ≡ true

abbrev pub IsBelow : Dict Float → Dict Float → Type 0
IsBelow d e = (bot : String) → fle (get_or d bot fzero) (get_or e bot fzero) ≡ true

get_or-put :
    (d : Dict Float) (k j : String) (v : Float)
    → get_or (Dict.put d k v) j fzero ≡ (if k == j then v else get_or d j fzero)
get_or-put d k j v = ground (arith, get-put d k j v)

get_or-set_default :
    (d : Dict Float) (k j : String) → get_or (set_default d k fzero) j fzero ≡ get_or d j fzero
get_or-set_default d k j = ground (arith, get_or-put d k j fzero, eq_iff k j)

pub IsBelow-put :
    (d : Dict Float) (k : String) (step : Float)
    → IsNonneg d
    → fle fzero step ≡ true
    → IsBelow d (Dict.put d k (fadd (get_or d k fzero) step))
IsBelow-put d k step n h j = rw get_or-put (elim (Bool-cases (k == j)) [
  | inl same ↦
      let e : k ≡ j = (eq_iff k j).0 same in
      rw (same, ← e) (fle-fadd (get_or d k fzero) step (n k) h)
  | inr other ↦ rw other (fle_refl_nonneg (get_or d j fzero) (n j))
])

pub IsNonneg-of-IsBelow : (d e : Dict Float) → IsNonneg d → IsBelow d e → IsNonneg e
IsNonneg-of-IsBelow d e n b j = fle_trans fzero (get_or d j fzero) (get_or e j fzero) (n j) (b j)

pub IsBelow-set_default :
    (d : Dict Float) (k : String) → IsNonneg d → IsBelow d (set_default d k fzero)
IsBelow-set_default d k n j = rw get_or-set_default (fle_refl_nonneg (get_or d j fzero) (n j))

pub IsNonneg-reset : (d : Dict Float) (k : String) → IsNonneg d → IsNonneg (Dict.put d k fzero)
unfolding fle
IsNonneg-reset d k n j = ground (arith, get_or-put d k j fzero, n j)

pub IsNonneg-pop : (d : Dict Float) (k : String) → IsNonneg d → IsNonneg (Dict.pop d k)
unfolding fle
IsNonneg-pop d k n j = ground (arith, get-pop d k j, n j)
