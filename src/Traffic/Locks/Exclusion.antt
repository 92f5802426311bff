-- ===== src/Traffic/Locks/Exclusion.antt =====
-- The locks exclude: what a submission takes, and how long a robot keeps an aisle.
use miniature_warehouse_robo.Base.{
  String, ◌≡◌, refl, ◌∙◌, sym, ap, Bool, true, false, not, ◌&&◌, ◌==◌, Option, none, some, List, [],
  ◌∷◌, arith, all, eq_iff, Bool-cases, Option-cases, inl, inr, subst, is_some, if◌then◌else◌,
}
use miniature_warehouse_robo.Base.Dict
use miniature_warehouse_robo.Base.Dict.{Dict, has, get-put, ==-refl}
use miniature_warehouse_robo.Base.Float.{Float}
use miniature_warehouse_robo.Traffic.Locks.{
  SimpleTrafficManager, SubmitResult, sent, waiting, other, first_blocked, take_all, submit_task,
  release_aisle,
}

pub get-take_all :
    (locks : Dict (Option String)) (robot : String) (route : List String) (aisle : String)
    → Dict.get (take_all locks robot route) aisle
      ≡ (if has route aisle then some (some robot) else Dict.get locks aisle)
unfolding take_all has
get-take_all locks robot [] aisle = refl
get-take_all locks robot (a ∷ route) aisle = ground (
  arith,
  get-take_all (Dict.put locks a (some robot)) robot route aisle,
  get-put locks a aisle (some robot),
)

first_blocked-taken :
    (locks : Dict (Option String)) (robot a : String) (route : List String) (o : String)
    → other (Dict.get locks a) robot ≡ some o
    → first_blocked locks robot (a ∷ route) ≡ some (a, o)
unfolding first_blocked
first_blocked-taken locks robot a route o found = ground (arith, found)

pub first_blocked-clear :
    (locks : Dict (Option String)) (robot a : String) (route : List String)
    → other (Dict.get locks a) robot ≡ none
    → first_blocked locks robot (a ∷ route) ≡ first_blocked locks robot route
unfolding first_blocked
first_blocked-clear locks robot a route clear = ground (arith, clear)

-- An aisle of the route that somebody else holds blocks it.
pub blocked-of_other :
    (locks : Dict (Option String)) (robot : String) (route : List String) (aisle : String)
    → has route aisle ≡ true
    → is_some (other (Dict.get locks aisle) robot) ≡ true
    → is_some (first_blocked locks robot route) ≡ true
unfolding has
blocked-of_other locks robot [] aisle h taken = absurd (cc)
blocked-of_other locks robot (a ∷ route) aisle h taken =
    elim (Option-cases (other (Dict.get locks a) robot)) [
      | inr (o, found) ↦ rw (first_blocked-taken locks robot a route o found) refl
      | inl clear ↦
          rw (first_blocked-clear locks robot a route clear) (elim (Bool-cases (a == aisle)) [
            | inr differs ↦ blocked-of_other locks robot route aisle (rw differs at h) taken
            | inl same ↦
                let e : a ≡ aisle = (eq_iff a aisle).0 same in
                let bad : false ≡ true =
                  subst (λ o. is_some o ≡ true)
                    (ap (λ b. other (Dict.get locks b) robot) (sym e) ∙ clear) taken in
                absurd (cc)
          ])
    ]

-- What blocks a route is an aisle of it, and a named robot other than this one holds it.
pub first_blocked-names :
    (locks : Dict (Option String)) (robot : String) (route : List String) {aisle occupant : String}
    → first_blocked locks robot route ≡ some (aisle, occupant)
    → (has route aisle ≡ true) × (other (Dict.get locks aisle) robot ≡ some occupant)
unfolding first_blocked has
first_blocked-names locks robot [] h = absurd (cc)
first_blocked-names locks robot (a ∷ route) {aisle} {occupant} h =
    elim (Option-cases (other (Dict.get locks a) robot)) [
      | inr (o, found) ↦
          let both = sym (first_blocked-taken locks robot a route o found) ∙ h in
          let e : a ≡ aisle = ground (arith, both) in
          let eo : o ≡ occupant = ground (arith, both) in
          (
            rw (sym e) (rw (==-refl a) refl),
            subst (λ b. other (Dict.get locks b) robot ≡ some occupant) e (found ∙ ap some eo),
          )
      | inl clear ↦
          let (within, taken) =
            first_blocked-names locks robot route
              (sym (first_blocked-clear locks robot a route clear) ∙ h) in
          (ground (arith, within), taken)
    ]

abbrev pub is_waiting : SubmitResult → Bool
is_waiting (waiting aisle occupant) = true
is_waiting sent = false

-- A submission that is refused changes nothing and sends nothing.
pub refused :
    (m : SimpleTrafficManager) (robot pickup dropoff : String) (now : Option Float)
    → is_some (first_blocked m.aisle_locks robot (m.plan_route pickup dropoff)) ≡ true
    → let r = submit_task m robot pickup dropoff now in
      (r.0 ≡ m) × (is_waiting r.1 ≡ true) × (r.2 ≡ [])
unfolding submit_task
refused m robot pickup dropoff now h =
    elim (Option-cases (first_blocked m.aisle_locks robot (m.plan_route pickup dropoff))) [
      | inl clear ↦ let bad : false ≡ true = ground (arith, h, clear) in absurd (cc)
      | inr (b, found) ↦ rw found (refl, refl, refl)
    ]

pub granted :
    (m : SimpleTrafficManager) (robot pickup dropoff : String) (now : Option Float)
    → first_blocked m.aisle_locks robot (m.plan_route pickup dropoff) ≡ none
    → let r = submit_task m robot pickup dropoff now in
      (r.0.aisle_locks ≡ take_all m.aisle_locks robot (m.plan_route pickup dropoff))
      × (r.1 ≡ sent)
      × (r.2 ≡ (if m.has_bridge then (robot, dropoff) ∷ [] else []))
unfolding submit_task
granted m robot pickup dropoff now clear = rw clear (refl, refl, refl)

pub data Op : Type 0 where
  submitted : String → String → String → Option Float → Op
  released : String → String → Op

abbrev pub apply : SimpleTrafficManager → Op → SimpleTrafficManager
apply m (submitted robot pickup dropoff now) = (submit_task m robot pickup dropoff now).0
apply m (released robot aisle) = release_aisle m robot aisle

abbrev pub apply_all : SimpleTrafficManager → List Op → SimpleTrafficManager
apply_all m [] = m
apply_all m (op ∷ ops) = apply_all (apply m op) ops

-- The operation does not release the robot's lock on the aisle.
abbrev pub spares : String → String → Op → Bool
spares robot aisle (submitted r p d now) = true
spares robot aisle (released r a) = not (r == robot && a == aisle)

plan-apply : (m : SimpleTrafficManager) (op : Op) → (apply m op).plan_route ≡ m.plan_route
unfolding submit_task release_aisle
plan-apply m (submitted robot pickup dropoff now) = ground arith
plan-apply m (released robot aisle) = ground arith

-- A named robot is somebody else to every other robot.
other-of_named :
    (o : Option (Option String)) (robot r : String)
    → (robot == "") ≡ false
    → (robot == r) ≡ false
    → o ≡ some (some robot)
    → is_some (other o r) ≡ true
other-of_named o robot r named differs h = ground (arith, named, differs, h)

stays :
    (locks : Dict (Option String)) (robot r : String) (route : List String) (aisle : String)
    → (robot == "") ≡ false
    → Dict.get locks aisle ≡ some (some robot)
    → first_blocked locks r route ≡ none
    → (if has route aisle then some (some r) else Dict.get locks aisle) ≡ some (some robot)
stays locks robot r route aisle named lock clear = elim (Bool-cases (has route aisle)) [
  | inr off ↦ rw off lock
  | inl on ↦ elim (Bool-cases (robot == r)) [
    | inl same ↦ rw on (ap (λ s. some (some s)) (sym ((eq_iff robot r).0 same)))
    | inr differs ↦
        let taken = other-of_named (Dict.get locks aisle) robot r named differs lock in
        let blocked = blocked-of_other locks r route aisle on taken in
        let bad : false ≡ true = sym (ap is_some clear) ∙ blocked in absurd (cc)
  ]
]

keeps :
    (m : SimpleTrafficManager) (robot aisle : String) (op : Op)
    → (robot == "") ≡ false
    → Dict.get m.aisle_locks aisle ≡ some (some robot)
    → spares robot aisle op ≡ true
    → Dict.get (apply m op).aisle_locks aisle ≡ some (some robot)
unfolding release_aisle
keeps m robot aisle (submitted r p d now) named lock h =
    let route = m.plan_route p d in
    elim (Option-cases (first_blocked m.aisle_locks r route)) [
      | inr (b, found) ↦
          let same = (refused m r p d now (ap is_some found)).0 in
          ap (λ n. Dict.get n.aisle_locks aisle) same ∙ lock
      | inl clear ↦
          ap (λ locks. Dict.get locks aisle) (granted m r p d now clear).0
          ∙ get-take_all m.aisle_locks r route aisle
          ∙ stays m.aisle_locks robot r route aisle named lock clear
    ]
keeps m robot aisle (released r a) named lock h = ground (
  arith,
  get-put m.aisle_locks a aisle none,
  eq_iff r robot,
  eq_iff robot r,
  eq_iff a aisle,
  lock,
)

keeps_all :
    (m : SimpleTrafficManager) (robot aisle : String) (ops : List Op)
    → (robot == "") ≡ false
    → Dict.get m.aisle_locks aisle ≡ some (some robot)
    → all (spares robot aisle) ops ≡ true
    → (Dict.get (apply_all m ops).aisle_locks aisle ≡ some (some robot))
      × ((apply_all m ops).plan_route ≡ m.plan_route)
unfolding all
keeps_all m robot aisle [] named lock h = (lock, refl)
keeps_all m robot aisle (op ∷ ops) named lock h =
    let first = keeps m robot aisle op named lock (ground arith) in
    let (kept, plan) = keeps_all (apply m op) robot aisle ops named first (ground arith) in
    (kept, plan ∙ plan-apply m op)

-- Once a named robot holds an aisle, it holds it after any submissions of any robots and any releases
-- but its own of that aisle; and then a task of another robot whose route has the aisle is told to wait,
-- changes nothing and sends no goal.
pub held_until_released :
    (m : SimpleTrafficManager) (robot aisle : String) (ops : List Op)
    → (second pickup dropoff : String) (now : Option Float) → (robot == "") ≡ false
    → (robot == second) ≡ false
    → Dict.get m.aisle_locks aisle ≡ some (some robot)
    → all (spares robot aisle) ops ≡ true
    → has (m.plan_route pickup dropoff) aisle ≡ true
    → let m' = apply_all m ops in
      let r = submit_task m' second pickup dropoff now in
      (Dict.get m'.aisle_locks aisle ≡ some (some robot))
      × (is_waiting r.1 ≡ true)
      × (r.0 ≡ m')
      × (r.2 ≡ [])
held_until_released m robot aisle ops second pickup dropoff now named differs lock h on_route =
    let m' = apply_all m ops in
    let (kept, plan) = keeps_all m robot aisle ops named lock h in
    let within = ap (λ f. has (f pickup dropoff) aisle) plan ∙ on_route in
    let taken = other-of_named (Dict.get m'.aisle_locks aisle) robot second named differs kept in
    let blocked =
      blocked-of_other m'.aisle_locks second (m'.plan_route pickup dropoff) aisle within taken in
    let (same, waits, silent) = refused m' second pickup dropoff now blocked in
    (kept, waits, same, silent)
