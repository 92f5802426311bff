-- ===== src/Safety/Latches/Edges.antt =====
-- The edge latch over a run of ticks.
use miniature_warehouse_robo.Base.{
  ℕ, ◌+◌, ◌≡◌, refl, Bool, true, not, ◌&&◌, List, [], ◌∷◌, eq_iff, arith, Bool-cases, inl, inr,
  if◌then◌else◌, eqb,
}
use miniature_warehouse_robo.Safety.Guard.{Decision, Reason}
use miniature_warehouse_robo.Safety.Latches.{
  Key, same_key, holds, minus, keys_of, EdgeLatch, rising, code,
}

code-injective : (r s : Reason) → eqb (code r) (code s) ≡ true → r ≡ s
code-injective r s h = ground arith

pub same_key-eq : (j k : Key) → same_key j k ≡ true → j ≡ k
same_key-eq (b, r) (c, s) h = ground (arith, eq_iff b c, code-injective r s)

-- A key is newly active exactly if this tick holds it and the latch did not.
holds-minus :
    (now active : List Key) (k : Key)
    → holds (minus now active) k ≡ (holds now k && not (holds active k))
unfolding minus holds
holds-minus [] active k = refl
holds-minus (j ∷ now) active k = elim (Bool-cases (same_key j k)) [
  | inl same ↦ ground (arith, same_key-eq j k same, holds-minus now active k)
  | inr other ↦ ground (arith, other, holds-minus now active k)
]

pub holds-rising :
    (latch : EdgeLatch) (ds : List Decision) (k : Key)
    → holds (rising latch ds).1 k ≡ (holds (keys_of ds) k && not (holds latch.active k))
unfolding rising
holds-rising latch ds k = holds-minus (keys_of ds) latch.active k

-- The latch holds what this tick has decided.
pub active-rising :
    (latch : EdgeLatch) (ds : List Decision) → (rising latch ds).0.active ≡ keys_of ds
unfolding rising
active-rising latch ds = refl

-- How many ticks of a run report the key as newly active.
pub reports : EdgeLatch → List (List Decision) → Key → ℕ
reports latch [] k = 0
reports latch (ds ∷ ticks) k =
    let (latch', fresh) = rising latch ds in
    (if holds fresh k then 1 else 0) + reports latch' ticks k

-- How often a signal goes from false to true.
pub rising_edges : Bool → List Bool → ℕ
rising_edges before [] = 0
rising_edges before (now ∷ rest) = (if now && not before then 1 else 0) + rising_edges now rest

abbrev pub signal : List (List Decision) → Key → List Bool
signal [] k = []
signal (ds ∷ ticks) k = holds (keys_of ds) k ∷ signal ticks k

-- Over any run of ticks an alarm is reported once for each time that it becomes active, and not
-- again while it is held.
pub reports-eq-rising_edges :
    (latch : EdgeLatch) (ticks : List (List Decision)) (k : Key)
    → reports latch ticks k ≡ rising_edges (holds latch.active k) (signal ticks k)
unfolding reports rising_edges
reports-eq-rising_edges latch [] k = refl
reports-eq-rising_edges latch (ds ∷ ticks) k =
    rw (holds-rising, reports-eq-rising_edges (rising latch ds).0 ticks k) (unfold rising in refl)
