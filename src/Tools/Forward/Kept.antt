-- ===== src/Tools/Forward/Kept.antt =====
-- What a call of tools.py that fails leaves as it was.
use miniature_warehouse_robo.Base.{
  ℕ, ◌+◌, String, ◌≡◌, ◌≢◌, refl, ◌∙◌, ap, sym, Bool, true, false, ◌==◌, Option, none, some, [],
  ◌∷◌, arith, Option-cases, Bool-cases, inl, inr, leb, eq_iff, ◌⊎◌,
}
use miniature_warehouse_robo.Base.Dict
use miniature_warehouse_robo.Base.Dict.{Dict, get-pop, get-put}
use miniature_warehouse_robo.Tools.Replay.{
  idempotency_window_gens, is_stale, evict, check_and_add, check, Stores,
}
use miniature_warehouse_robo.Tools.Replay.Once.{get-evict}
use miniature_warehouse_robo.Tools.Calls.{WarehouseTools}

-- The destination of the robot is what it was, or the robot has no task and its destination is gone.
abbrev KeepsDestination : WarehouseTools → WarehouseTools → String → Type 0
KeepsDestination t t' robot =
    (Dict.get t'.gate.dropoffs robot ≡ Dict.get t.gate.dropoffs robot)
    ⊎ ((Dict.get t.gate.active_tasks robot ≡ none) × (Dict.get t'.gate.dropoffs robot ≡ none))

-- The state is as it was, but for the memory of keys and the destinations of robots without a task.
pub record IsKept (t t' : WarehouseTools) : Type 0 where
  pub windows : t'.gate.freshness ≡ t.gate.freshness
  pub tasks : t'.gate.active_tasks ≡ t.gate.active_tasks
  pub destinations : (robot : String) → KeepsDestination t t' robot
  pub holds : t'.gate.emergency ≡ t.gate.emergency
  pub commands : t'.gate.last_cmd ≡ t.gate.last_cmd
  pub counter : t'.gate.task_seq ≡ t.gate.task_seq
  pub escalations : t'.escalations ≡ t.escalations
  pub negotiations : t'.negotiation_seq ≡ t.negotiation_seq
  pub gen : t'.stores.gen ≡ t.stores.gen

-- A key of generation g is inside the window of a call; a call without a generation forgets none.
abbrev in_window : Option ℕ → ℕ → Bool
in_window none g = true
in_window (some gen_id) g = leb gen_id (g + idempotency_window_gens)

-- The memory of keys after a call: no key inside the window is forgotten or changed, and no key but the
-- call's own is new.
pub record Remembers (gen_id : Option ℕ) (key : Option String) (c c' : Dict ℕ) : Type 0 where
  pub kept :
      (k : String) (g : ℕ)
      → Dict.get c k ≡ some g
      → in_window gen_id g ≡ true
      → Dict.get c' k ≡ some g
  pub unknown : (k : String) → Dict.get c k ≡ none → key ≢ some k → Dict.get c' k ≡ none

pub IsKept-refl : (t : WarehouseTools) → IsKept t t
IsKept-refl t = record {
  windows = refl;
  tasks = refl;
  destinations = λ robot. inl refl;
  holds = refl;
  commands = refl;
  counter = refl;
  escalations = refl;
  negotiations = refl;
  gen = refl;
}

KeepsDestination-trans :
    (t u v : WarehouseTools) (robot : String)
    → u.gate.active_tasks ≡ t.gate.active_tasks
    → KeepsDestination t u robot
    → KeepsDestination u v robot
    → KeepsDestination t v robot
KeepsDestination-trans t u v robot same (inl p) (inl q) = inl (q ∙ p)
KeepsDestination-trans t u v robot same (inr (idle, gone)) (inl q) = inr (idle, q ∙ gone)
KeepsDestination-trans t u v robot same p (inr (idle, gone)) =
    inr (ap (λ tasks. Dict.get tasks robot) (sym same) ∙ idle, gone)

pub IsKept-trans : (t u v : WarehouseTools) → IsKept t u → IsKept u v → IsKept t v
IsKept-trans t u v p q = record {
  windows = q.windows ∙ p.windows;
  tasks = q.tasks ∙ p.tasks;
  destinations = λ robot.
      KeepsDestination-trans t u v robot p.tasks (p.destinations robot) (q.destinations robot);
  holds = q.holds ∙ p.holds;
  commands = q.commands ∙ p.commands;
  counter = q.counter ∙ p.counter;
  escalations = q.escalations ∙ p.escalations;
  negotiations = q.negotiations ∙ p.negotiations;
  gen = q.gen ∙ p.gen;
}

-- A destination is dropped for a robot that has no task.
pub KeepsDestination-pop :
    (tasks : Dict ℕ) (dropoffs : Dict String) (robot other : String)
    → Dict.get tasks robot ≡ none
    → (Dict.get (Dict.pop dropoffs robot) other ≡ Dict.get dropoffs other)
      ⊎ ((Dict.get tasks other ≡ none) × (Dict.get (Dict.pop dropoffs robot) other ≡ none))
KeepsDestination-pop tasks dropoffs robot other idle = elim (Bool-cases (robot == other)) [
  | inl same ↦ inr (
    ap (Dict.get tasks) (sym ((eq_iff robot other).0 same)) ∙ idle,
    rw (get-pop dropoffs robot other, same) refl,
  )
  | inr differs ↦ inl (rw (get-pop dropoffs robot other, differs) refl)
]

gen-check : (s : Stores) (gen_id : ℕ) (key : Option String) → (check s gen_id key).0.gen ≡ s.gen
unfolding check is_stale check_and_add
gen-check s gen_id none = ground arith
gen-check s gen_id (some key) = ground arith

pub IsKept-check :
    (t : WarehouseTools) (gen_id : ℕ) (key : Option String)
    → IsKept t (record t { stores = (check t.stores gen_id key).0 })
IsKept-check t gen_id key = record {
  windows = refl;
  tasks = refl;
  destinations = λ robot. inl refl;
  holds = refl;
  commands = refl;
  counter = refl;
  escalations = refl;
  negotiations = refl;
  gen = gen-check t.stores gen_id key;
}

pub Remembers-refl :
    (gen_id : Option ℕ) (key : Option String) (c : Dict ℕ) → Remembers gen_id key c c
Remembers-refl gen_id key c = record { kept = λ k g e inside. e; unknown = λ k e other. e }

get-evict_missing :
    (c : Dict ℕ) (gen : ℕ) (k : String) → Dict.get c k ≡ none → Dict.get (evict c gen) k ≡ none
unfolding Dict.get evict
get-evict_missing [] gen k e = refl
get-evict_missing ((j, g) ∷ c) gen k e = ground (arith, get-evict_missing c gen k)

kept-check :
    (s : Stores) (gen_id : ℕ) (key : Option String) (k : String) (g : ℕ)
    → Dict.get s.consumed k ≡ some g
    → in_window (some gen_id) g ≡ true
    → Dict.get (check s gen_id key).0.consumed k ≡ some g
unfolding check is_stale check_and_add
kept-check s gen_id none k g e inside = ground arith
kept-check s gen_id (some key) k g e inside = elim (Option-cases (Dict.get s.consumed key)) [
  | inr (n, old) ↦ ground (arith, old)
  | inl new ↦
      let put = get-put s.consumed key k gen_id in
      let kept = get-evict (Dict.put s.consumed key gen_id) gen_id k {h = g} in
      ground (arith, new, put, kept, eq_iff key k)
]

unknown-check :
    (s : Stores) (gen_id : ℕ) (key : Option String) (k : String)
    → Dict.get s.consumed k ≡ none
    → key ≢ some k
    → Dict.get (check s gen_id key).0.consumed k ≡ none
unfolding check is_stale check_and_add
unknown-check s gen_id none k e other = ground arith
unknown-check s gen_id (some key) k e other =
    let put = get-put s.consumed key k gen_id in
    let missing = get-evict_missing (Dict.put s.consumed key gen_id) gen_id k in
    let differs : (key == k) ≡ false = elim (Bool-cases (key == k)) [
      | inl same ↦ absurd (other (ap some ((eq_iff key k).0 same)))
      | inr d ↦ d
    ] in
    ground (arith, put, missing, e, differs)

-- The generation check alone.
pub Remembers-check :
    (s : Stores) (gen_id : ℕ) (key : Option String)
    → Remembers (some gen_id) key s.consumed (check s gen_id key).0.consumed
Remembers-check s gen_id key = record {
  kept = kept-check s gen_id key;
  unknown = unknown-check s gen_id key;
}
