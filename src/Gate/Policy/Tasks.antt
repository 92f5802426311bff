-- ===== src/Gate/Policy/Tasks.antt =====
-- Task ids: fresh, held by one robot each, and the key that cancels exactly its own task.
use miniature_warehouse_robo.Base.{
  ℕ, suc, ◌≤◌, ◌≡◌, ◌≢◌, refl, ◌∙◌, ap, String, true, false, Option, none, some, List, [], ◌∷◌,
  ◌==◌, arith, eq_iff, if◌then◌else◌, Option-cases, inl, inr,
}
use miniature_warehouse_robo.Base.Dict
use miniature_warehouse_robo.Base.Dict.{Dict, get-put, get-pop, get-pop_self, get-put_self}
use miniature_warehouse_robo.Base.Dict.Keys.{Uniq, Uniq-put, Uniq-pop}
use miniature_warehouse_robo.Base.Float.{Float}
use miniature_warehouse_robo.Gate.Freshness.{FreshnessThresholds}
use miniature_warehouse_robo.Gate.Checks.{Reason}
use miniature_warehouse_robo.Gate.Policy.{
  PolicyGate, FleetState, accepted, new_gate, set_emergency, register_task_inner, register_unless,
  validate_and_register_dispatch, validate_and_register_charging, validate_dispatch_inner,
  validate_charging, resolve_and_clear_active, resolve_and_clear_by_task_id, owner_of, clear_owner,
}
use miniature_warehouse_robo.Gate.Policy.Ops.{
  Op, dispatch, charge, cancel, cancel_id, emergency, perform, perform_all,
}

record IsWellFormed (g : PolicyGate) : Type 0 where
  pub uniq : Uniq g.active_tasks
  bound : (r : String) (id : ℕ) → Dict.get g.active_tasks r ≡ some id → id ≤ g.task_seq
  distinct :
      (r r' : String) (id : ℕ)
      → Dict.get g.active_tasks r ≡ some id
      → Dict.get g.active_tasks r' ≡ some id
      → r ≡ r'

register-IsWellFormed :
    (g : PolicyGate) (robot dropoff : Option String) (now : Float)
    → IsWellFormed g
    → IsWellFormed (register_task_inner g robot dropoff now).0
unfolding register_task_inner
register-IsWellFormed g none dropoff now h = record {
  uniq = h.uniq;
  bound = λ r id e. omega (arith, h.bound r id e);
  distinct = h.distinct;
}
register-IsWellFormed g (some robot) dropoff now h = record {
  uniq = Uniq-put g.active_tasks robot (suc g.task_seq) h.uniq;
  bound = λ r id e. ground (arith, get-put g.active_tasks robot r (suc g.task_seq), h.bound r id);
  distinct = λ r r' id e e'. ground (
    arith,
    get-put g.active_tasks robot r (suc g.task_seq),
    get-put g.active_tasks robot r' (suc g.task_seq),
    eq_iff robot r,
    eq_iff robot r',
    h.distinct r r' id,
    h.bound r id,
    h.bound r' id,
  );
}

register_unless-IsWellFormed :
    (o : Option Reason) (g : PolicyGate) (robot dropoff : Option String) (now : Float)
    → IsWellFormed g
    → IsWellFormed (register_unless o g robot dropoff now).0
register_unless-IsWellFormed (some r) g robot dropoff now h = h
register_unless-IsWellFormed none g robot dropoff now h =
    register-IsWellFormed g robot dropoff now h

pop-IsWellFormed :
    (g : PolicyGate) (robot : String) (left : Dict String)
    → IsWellFormed g
    → IsWellFormed (record g { active_tasks = Dict.pop g.active_tasks robot; dropoffs = left })
pop-IsWellFormed g robot left h = record {
  uniq = Uniq-pop g.active_tasks robot h.uniq;
  bound = λ r id e. ground (arith, get-pop g.active_tasks robot r, h.bound r id);
  distinct = λ r r' id e e'.
      ground (
        arith,
        get-pop g.active_tasks robot r,
        get-pop g.active_tasks robot r',
        h.distinct r r' id,
      );
}

clear_owner-IsWellFormed :
    (g : PolicyGate) (owner : Option String) → IsWellFormed g → IsWellFormed (clear_owner g owner).0
clear_owner-IsWellFormed g none h = h
clear_owner-IsWellFormed g (some owner) h = pop-IsWellFormed g owner (Dict.pop g.dropoffs owner) h

module _ (parse_iso : String → Option Float) where
  perform-IsWellFormed :
      (g : PolicyGate) (op : Op) → IsWellFormed g → IsWellFormed (perform parse_iso g op)
  perform-IsWellFormed g (dispatch state robot pickup dropoff action now) h =
      unfold validate_and_register_dispatch in
      register_unless-IsWellFormed
        (validate_dispatch_inner parse_iso g state robot pickup dropoff action now) g robot dropoff
        now h
  perform-IsWellFormed g (charge state robot now) h =
      unfold validate_and_register_charging in
      register_unless-IsWellFormed (validate_charging parse_iso g state robot now) g (some robot)
        (some "charging_station") now h
  perform-IsWellFormed g (cancel robot) h =
      unfold resolve_and_clear_active in pop-IsWellFormed g robot (Dict.pop g.dropoffs robot) h
  perform-IsWellFormed g (cancel_id task_id) h =
      unfold resolve_and_clear_by_task_id in
      clear_owner-IsWellFormed g (owner_of g.active_tasks task_id) h
  perform-IsWellFormed g (emergency robot true) h =
      unfold set_emergency in record { uniq = h.uniq; bound = h.bound; distinct = h.distinct }
  perform-IsWellFormed g (emergency robot false) h =
      unfold set_emergency in record { uniq = h.uniq; bound = h.bound; distinct = h.distinct }

  perform_all-IsWellFormed :
      (g : PolicyGate) (ops : List Op) → IsWellFormed g → IsWellFormed (perform_all parse_iso g ops)
  perform_all-IsWellFormed g [] h = h
  perform_all-IsWellFormed g (op ∷ ops) h =
      perform_all-IsWellFormed (perform parse_iso g op) ops (perform-IsWellFormed g op h)

new-IsWellFormed : (w : FreshnessThresholds) (held : List String) → IsWellFormed (new_gate w held)
unfolding new_gate Dict.get
new-IsWellFormed w held = record { uniq = tt; bound = λ r id e. cc; distinct = λ r r' id e e'. cc }

-- From a new gate, after any sequence of calls: two robots whose active tasks have one id are the same
-- robot, and no active id is above the counter, so the next id is new.
pub task_ids_unique :
    (parse_iso : String → Option Float) (w : FreshnessThresholds) (held : List String)
    (ops : List Op) (r r' : String) (id : ℕ)
    → Dict.get (perform_all parse_iso (new_gate w held) ops).active_tasks r ≡ some id
    → Dict.get (perform_all parse_iso (new_gate w held) ops).active_tasks r' ≡ some id
    → (r ≡ r') × (id ≤ (perform_all parse_iso (new_gate w held) ops).task_seq)
task_ids_unique parse_iso w held ops r r' id e e' =
    let v = perform_all-IsWellFormed parse_iso (new_gate w held) ops (new-IsWellFormed w held) in
    (v.distinct r r' id e e', v.bound r id e)

owner_of-get :
    (d : Dict ℕ) (id : ℕ) (r : String) → Uniq d → owner_of d id ≡ some r → Dict.get d r ≡ some id
unfolding owner_of Dict.get
owner_of-get [] id r u h = cc
owner_of-get ((k, v) ∷ d) id r u h = ground (arith, eq_iff k r, owner_of-get d id r u.1, u.0)

owner_of-exists : (d : Dict ℕ) (id : ℕ) (r : String) → Dict.get d r ≡ some id → owner_of d id ≢ none
unfolding owner_of Dict.get
owner_of-exists [] id r h = cc
owner_of-exists ((k, v) ∷ d) id r h = ground (arith, owner_of-exists d id r)

owner_of-eq :
    (g : PolicyGate) (id : ℕ) (r : String)
    → IsWellFormed g
    → Dict.get g.active_tasks r ≡ some id
    → owner_of g.active_tasks id ≡ some r
owner_of-eq g id r h e = elim (Option-cases (owner_of g.active_tasks id)) [
  | inl nobody ↦ absurd (owner_of-exists g.active_tasks id r e nobody)
  | inr (r', found) ↦
      found ∙ ap some (h.distinct r' r id (owner_of-get g.active_tasks id r' h.uniq found) e)
]

accepted-active :
    (o : Option Reason) (g : PolicyGate) (robot : String) (dropoff : Option String) (now : Float)
    {id : ℕ}
    → (register_unless o g (some robot) dropoff now).1 ≡ accepted id
    → Dict.get (register_unless o g (some robot) dropoff now).0.active_tasks robot ≡ some id
unfolding register_task_inner
accepted-active (some r) g robot dropoff now h = cc
accepted-active none g robot dropoff now h = get-put_self g.active_tasks robot _ ∙ ground arith

-- What a cancellation of the robot's task returns and leaves: the robot and its entries are gone, those
-- of all others are as they were.
pub record Cancels (g : PolicyGate) (robot : String) (r : PolicyGate × Option String) : Type 0 where
  named : r.1 ≡ some robot
  pub tasks :
      (other : String)
      → Dict.get r.0.active_tasks other
        ≡ (if robot == other then none else Dict.get g.active_tasks other)
  destinations :
      (other : String)
      → Dict.get r.0.dropoffs other ≡ (if robot == other then none else Dict.get g.dropoffs other)

cleared :
    (g : PolicyGate) (id : ℕ) (robot : String)
    → owner_of g.active_tasks id ≡ some robot
    → Cancels g robot (resolve_and_clear_by_task_id g id)
unfolding resolve_and_clear_by_task_id
cleared g id robot h = rw h (record {
  named = refl;
  tasks = get-pop g.active_tasks robot;
  destinations = get-pop g.dropoffs robot;
})

-- From a new gate, after any sequence of calls: a dispatch of a robot that is accepted with an id can
-- be cancelled by that id. The cancellation names that robot, frees its task and its destination, and
-- leaves the task and the destination of every other robot as they were.
pub cancel_by_id :
    (parse_iso : String → Option Float) (w : FreshnessThresholds) (held : List String)
    (ops : List Op) (state : FleetState) (robot : String) (pickup dropoff : Option String)
    (action : String) (now : Float) (id : ℕ)
    → (validate_and_register_dispatch parse_iso
        (perform_all parse_iso (new_gate w held) ops)
        state
        (some robot)
        pickup
        dropoff
        action
        now).1
      ≡ accepted id
    → let g =
        (validate_and_register_dispatch parse_iso
          (perform_all parse_iso (new_gate w held) ops)
          state
          (some robot)
          pickup
          dropoff
          action
          now).0 in
      Cancels g robot (resolve_and_clear_by_task_id g id)
cancel_by_id parse_iso w held ops state robot pickup dropoff action now id h =
    let g0 = perform_all parse_iso (new_gate w held) ops in
    let valid =
      perform_all-IsWellFormed parse_iso (new_gate w held) ops (new-IsWellFormed w held) in
    let g =
      (validate_and_register_dispatch parse_iso g0 state (some robot) pickup dropoff action
        now).0 in
    let valid' =
      perform-IsWellFormed parse_iso g0 (dispatch state (some robot) pickup dropoff action now)
        valid in
    let active : Dict.get g.active_tasks robot ≡ some id =
      unfold validate_and_register_dispatch in
      accepted-active
        (validate_dispatch_inner parse_iso g0 state (some robot) pickup dropoff action now) g0 robot
        dropoff now h in
    cleared g id robot (owner_of-eq g id robot valid' active)
