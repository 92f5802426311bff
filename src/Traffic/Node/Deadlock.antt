-- ===== src/Traffic/Node/Deadlock.antt =====
-- The fallback against a deadlock: what the poll of the lock ages frees, and who is sent.
use miniature_warehouse_robo.Base.{
  String, ◌≡◌, refl, ◌∙◌, ap, Bool, true, not, ◌&&◌, ◌||◌, ◌==◌, Option, none, some, List, [], ◌∷◌,
  ◌++◌, arith, all, any, eq_iff, Bool-cases, Option-cases, inl, inr, is_some, if◌then◌else◌,
}
use miniature_warehouse_robo.Base.Dict
use miniature_warehouse_robo.Base.Dict.{Dict, get-put, ==-refl}
use miniature_warehouse_robo.Base.Float.{Float}
use miniature_warehouse_robo.Traffic.Locks.{
  SimpleTrafficManager, Navigate, other, first_blocked, release_aisle, held_by, aged, expired_of,
  expired_locks,
}
use miniature_warehouse_robo.Traffic.Locks.Exclusion.{granted, first_blocked-clear}
use miniature_warehouse_robo.Traffic.Node.{
  TrafficManagerNode, submit, submit_each, resubmit_waiting, release_all, check_timeouts,
}

-- Does the entry of a list of locks name the aisle and its holder?
abbrev names : Option (Option String) → String → String × String → Bool
names o aisle (robot, a) = a == aisle && held_by o robot

get-release_aisle :
    (m : SimpleTrafficManager) (robot a aisle : String)
    → Dict.get (release_aisle m robot a).aisle_locks aisle ≡ (
        if names (Dict.get m.aisle_locks aisle) aisle (robot, a)
        then some none
        else Dict.get m.aisle_locks aisle)
unfolding release_aisle
get-release_aisle m robot a aisle =
    ground (arith, get-put m.aisle_locks a aisle none, eq_iff a aisle)

free-release_all :
    (m : SimpleTrafficManager) (xs : List (String × String)) (aisle robot : String)
    → other (Dict.get m.aisle_locks aisle) robot ≡ none
    → other (Dict.get (release_all m xs).aisle_locks aisle) robot ≡ none
unfolding release_all
free-release_all m [] aisle robot h = h
free-release_all m ((r, a) ∷ xs) aisle robot h =
    free-release_all (release_aisle m r a) xs aisle robot
      (rw (get-release_aisle m r a aisle) (ground (arith, h)))

freed-release_all :
    (m : SimpleTrafficManager) (xs : List (String × String)) (aisle robot : String)
    → any (names (Dict.get m.aisle_locks aisle) aisle) xs ≡ true
    → other (Dict.get (release_all m xs).aisle_locks aisle) robot ≡ none
unfolding release_all any
freed-release_all m [] aisle robot h = absurd (cc)
freed-release_all m ((r, a) ∷ xs) aisle robot h =
    let step = get-release_aisle m r a aisle in
    elim (Bool-cases (names (Dict.get m.aisle_locks aisle) aisle (r, a))) [
      | inl hit ↦ free-release_all (release_aisle m r a) xs aisle robot (rw (step, hit) refl)
      | inr miss ↦
          freed-release_all (release_aisle m r a) xs aisle robot
            (rw (step, miss) (ground (arith, h, miss)))
    ]

aged-expired_of :
    (locks : Dict (Option String)) (acquired : Dict Float) (timeout now : Float)
    → (aisle occupant : String) → Dict.get locks aisle ≡ some (some occupant)
    → aged (Dict.get acquired aisle) timeout now ≡ true
    → any (names (some (some occupant)) aisle) (expired_of locks acquired timeout now) ≡ true
unfolding Dict.get expired_of any
aged-expired_of [] acquired timeout now aisle occupant h old = absurd (cc)
aged-expired_of ((a, none) ∷ locks) acquired timeout now aisle occupant h old =
    aged-expired_of locks acquired timeout now aisle occupant (ground (arith, h)) old
aged-expired_of ((a, some o) ∷ locks) acquired timeout now aisle occupant h old =
    elim (Bool-cases (a == aisle)) [
      | inl same ↦
          let e = (eq_iff a aisle).0 same in
          let here : aged (Dict.get acquired a) timeout now ≡ true =
            ap (λ b. aged (Dict.get acquired b) timeout now) e ∙ old in
          let holder : o ≡ occupant = ground (arith, h, same) in
          rw (here, same, holder, ==-refl occupant) refl
      | inr differs ↦
          let ih =
            aged-expired_of locks acquired timeout now aisle occupant (ground (arith, h, differs))
              old in
          ground (arith, ih)
    ]

-- Is the aisle free for the robot, or has its lock reached the age limit?
abbrev pub free_or_expired : SimpleTrafficManager → Float → String → String → Bool
free_or_expired m now robot aisle =
    not (is_some (other (Dict.get m.aisle_locks aisle) robot))
    || aged (Dict.get m.acquired_at aisle) m.lock_timeout_s now

holder-of_other :
    (o : Option (Option String)) (robot : String)
    → is_some (other o robot) ≡ true
    → (occupant : String) × (o ≡ some (some occupant))
holder-of_other none robot h = absurd (cc)
holder-of_other (some none) robot h = absurd (cc)
holder-of_other (some (some occupant)) robot h = (occupant, refl)

-- The poll frees each such aisle for the robot.
frees :
    (m : SimpleTrafficManager) (now : Float) (robot aisle : String)
    → free_or_expired m now robot aisle ≡ true
    → other (Dict.get (release_all m (expired_locks m now)).aisle_locks aisle) robot ≡ none
unfolding expired_locks
frees m now robot aisle h = elim (Option-cases (other (Dict.get m.aisle_locks aisle) robot)) [
  | inl free ↦ free-release_all m (expired_locks m now) aisle robot free
  | inr (who, taken) ↦
      let (occupant, lock) =
        holder-of_other (Dict.get m.aisle_locks aisle) robot (ap is_some taken) in
      let old : aged (Dict.get m.acquired_at aisle) m.lock_timeout_s now ≡ true =
        ground (arith, h, taken) in
      let listed =
        aged-expired_of m.aisle_locks m.acquired_at m.lock_timeout_s now aisle occupant lock old in
      freed-release_all m (expired_locks m now) aisle robot (rw lock listed)
]

clear_route :
    (m : SimpleTrafficManager) (now : Float) (robot : String) (route : List String)
    → all (free_or_expired m now robot) route ≡ true
    → first_blocked (release_all m (expired_locks m now)).aisle_locks robot route ≡ none
unfolding all first_blocked
clear_route m now robot [] h = refl
clear_route m now robot (a ∷ route) h =
    let locks = (release_all m (expired_locks m now)).aisle_locks in
    first_blocked-clear locks robot a route (frees m now robot a (ground arith))
    ∙ clear_route m now robot route (ground arith)

plan-release_all :
    (m : SimpleTrafficManager) (xs : List (String × String))
    → ((release_all m xs).plan_route ≡ m.plan_route)
      × ((release_all m xs).has_bridge ≡ m.has_bridge)
unfolding release_all release_aisle
plan-release_all m [] = (refl, refl)
plan-release_all m ((r, a) ∷ xs) =
    let (plan, bridge) = plan-release_all (release_aisle m r a) xs in
    (plan ∙ ground arith, bridge ∙ ground arith)

first_sent :
    (n : TrafficManagerNode) (robot pickup dropoff : String) (waits : Dict (String × String))
    → (clock : String → Float) → n.mgr.has_bridge ≡ true
    → first_blocked n.mgr.aisle_locks robot (n.mgr.plan_route pickup dropoff) ≡ none
    → (more : List Navigate) × ((submit_each n ((robot, (pickup, dropoff)) ∷ waits) clock).1
        ≡ (robot, dropoff) ∷ more)
unfolding submit_each submit
first_sent n robot pickup dropoff waits clock bridge clear =
    let n' = (submit n robot pickup dropoff (clock robot)).0 in
    let more = (submit_each n' waits clock).1 in
    let (locks, ok, sends) = granted n.mgr robot pickup dropoff (some (clock robot)) clear in
    let there = ap (λ (b : Bool). if b then (robot, dropoff) ∷ [] else []) bridge in
    (more, ap (λ s. s ++ more) (sends ∙ there))

-- A poll of the lock ages ends a deadlock: if every aisle on the route of the robot that has waited
-- longest is free for it or its lock has reached the age limit, then this poll sends that robot on its
-- way, before any other.
pub deadlock_broken :
    (n : TrafficManagerNode) (now : Float) (clock : String → Float)
    → (robot pickup dropoff : String) (waits : Dict (String × String))
    → n.held ≡ (robot, (pickup, dropoff)) ∷ waits
    → n.mgr.has_bridge ≡ true
    → all (free_or_expired n.mgr now robot) (n.mgr.plan_route pickup dropoff) ≡ true
    → (more : List Navigate) × ((check_timeouts n now clock).1 ≡ (robot, dropoff) ∷ more)
unfolding check_timeouts resubmit_waiting
deadlock_broken n now clock robot pickup dropoff waits queue bridge free =
    let m = release_all n.mgr (expired_locks n.mgr now) in
    let (plan, same) = plan-release_all n.mgr (expired_locks n.mgr now) in
    let clear =
      ap (λ f. first_blocked m.aisle_locks robot (f pickup dropoff)) plan
      ∙ clear_route n.mgr now robot (n.mgr.plan_route pickup dropoff) free in
    let (more, sends) =
      first_sent (record n { mgr = m }) robot pickup dropoff waits clock (same ∙ bridge) clear in
    (more, ap (λ held. (submit_each (record n { mgr = m }) held clock).1) queue ∙ sends)
