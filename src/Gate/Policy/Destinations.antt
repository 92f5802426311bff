-- ===== src/Gate/Policy/Destinations.antt =====
-- No two robots are on their way to one destination.
use miniature_warehouse_robo.Base.{
  ◌≡◌, refl, String, Bool, true, false, Option, none, some, List, [], ◌∷◌, ◌==◌, arith, eq_iff, all,
}
use miniature_warehouse_robo.Base.Dict
use miniature_warehouse_robo.Base.Dict.{Dict, get-put, get-pop}
use miniature_warehouse_robo.Base.Float.{Float}
use miniature_warehouse_robo.Gate.Freshness.{FreshnessThresholds}
use miniature_warehouse_robo.Gate.Checks.{Reason, taken_by_other, check_duplicate_destination}
use miniature_warehouse_robo.Gate.Policy.{
  PolicyGate, FleetState, new_gate, set_emergency, register_task_inner, register_unless, ◌<|>◌,
  validate_and_register_dispatch, validate_dispatch_inner, destination_stage, location_stage,
  robot_stage, resolve_and_clear_active, resolve_and_clear_by_task_id, owner_of, clear_owner,
}
use miniature_warehouse_robo.Gate.Policy.Ops.{
  Op, dispatch, charge, cancel, cancel_id, emergency, perform, perform_all,
}

-- At most one robot heads for each place.
abbrev IsExclusive : Dict String → Type 0
IsExclusive d =
    (r r' place : String) → Dict.get d r ≡ some place → Dict.get d r' ≡ some place → r ≡ r'

-- What the loop finds free, no other robot heads for.
not_taken :
    (d : Dict String) (place robot other : String)
    → taken_by_other d place (some robot) ≡ false
    → Dict.get d other ≡ some place
    → other ≡ robot
unfolding taken_by_other Dict.get
not_taken [] place robot other free h = cc
not_taken ((k, p) ∷ d) place robot other free h =
    ground (arith, eq_iff k other, eq_iff k robot, eq_iff p place, not_taken d place robot other)

put-IsExclusive :
    (d : Dict String) (robot place : String)
    → taken_by_other d place (some robot) ≡ false
    → IsExclusive d
    → IsExclusive (Dict.put d robot place)
put-IsExclusive d robot place free h r r' p e e' = ground (
  arith,
  get-put d robot r place,
  get-put d robot r' place,
  eq_iff robot r,
  eq_iff robot r',
  not_taken d place robot r free,
  not_taken d place robot r' free,
  h r r' p,
)

pop-IsExclusive :
    (d : Dict String) (robot : String) → IsExclusive d → IsExclusive (Dict.pop d robot)
pop-IsExclusive d robot h r r' p e e' =
    ground (arith, get-pop d robot r, get-pop d robot r', h r r' p)

-- A call that is no charging request and, if it is a dispatch with a destination, a delivery.
abbrev pub only_delivers : Op → Bool
only_delivers (dispatch state robot pickup none action now) = true
only_delivers (dispatch state robot pickup (some dropoff) action now) = action == "deliver"
only_delivers (charge state robot now) = false
only_delivers (cancel robot) = true
only_delivers (cancel_id task_id) = true
only_delivers (emergency robot active) = true

or-none : (a b : Option Reason) → (a <|> b) ≡ none → b ≡ none
or-none none b h = h
or-none (some r) b h = cc

destination-free :
    (g : PolicyGate) (robot dropoff action : String)
    → action == "deliver" ≡ true
    → destination_stage g (some robot) (some dropoff) action ≡ none
    → taken_by_other g.dropoffs dropoff (some robot) ≡ false
unfolding destination_stage check_duplicate_destination
destination-free g robot dropoff action d h = ground arith

dispatch-IsExclusive :
    (o : Option Reason) (g : PolicyGate) (robot dropoff : Option String) (action : String)
    (now : Float)
    → (o ≡ none → destination_stage g robot dropoff action ≡ none)
    → only_delivers
        (dispatch (record { timestamp = none; robots = [] }) robot none dropoff action now)
      ≡ true
    → IsExclusive g.dropoffs
    → IsExclusive (register_unless o g robot dropoff now).0.dropoffs
unfolding register_task_inner
dispatch-IsExclusive (some r) g robot dropoff action now free d h = h
dispatch-IsExclusive none g none dropoff action now free d h = h
dispatch-IsExclusive none g (some robot) none action now free d h = h
dispatch-IsExclusive none g (some robot) (some dropoff) action now free d h =
    put-IsExclusive g.dropoffs robot dropoff (destination-free g robot dropoff action d (free refl))
      h

clear_owner-IsExclusive :
    (g : PolicyGate) (owner : Option String)
    → IsExclusive g.dropoffs
    → IsExclusive (clear_owner g owner).0.dropoffs
clear_owner-IsExclusive g none h = h
clear_owner-IsExclusive g (some owner) h = pop-IsExclusive g.dropoffs owner h

module _ (parse_iso : String → Option Float) where
  last_stage :
      (g : PolicyGate) (state : FleetState) (robot pickup dropoff : Option String) (action : String)
      (now : Float)
      → validate_dispatch_inner parse_iso g state robot pickup dropoff action now ≡ none
      → destination_stage g robot dropoff action ≡ none
  unfolding validate_dispatch_inner
  last_stage g state robot pickup dropoff action now h =
      or-none (robot_stage parse_iso g state robot now) (destination_stage g robot dropoff action)
        (or-none (location_stage robot pickup dropoff action) _ h)

  perform-IsExclusive :
      (g : PolicyGate) (op : Op)
      → only_delivers op ≡ true
      → IsExclusive g.dropoffs
      → IsExclusive (perform parse_iso g op).dropoffs
  perform-IsExclusive g (dispatch state robot pickup none action now) d h =
      unfold validate_and_register_dispatch in
      dispatch-IsExclusive (validate_dispatch_inner parse_iso g state robot pickup none action now)
        g robot none action now (last_stage g state robot pickup none action now) d h
  perform-IsExclusive g (dispatch state robot pickup (some dropoff) action now) d h =
      unfold validate_and_register_dispatch in
      dispatch-IsExclusive
        (validate_dispatch_inner parse_iso g state robot pickup (some dropoff) action now) g robot
        (some dropoff) action now (last_stage g state robot pickup (some dropoff) action now) d h
  perform-IsExclusive g (charge state robot now) d h = cc
  perform-IsExclusive g (cancel robot) d h =
      unfold resolve_and_clear_active in pop-IsExclusive g.dropoffs robot h
  perform-IsExclusive g (cancel_id task_id) d h =
      unfold resolve_and_clear_by_task_id in
      clear_owner-IsExclusive g (owner_of g.active_tasks task_id) h
  perform-IsExclusive g (emergency robot true) d h = unfold set_emergency in h
  perform-IsExclusive g (emergency robot false) d h = unfold set_emergency in h

  perform_all-IsExclusive :
      (g : PolicyGate) (ops : List Op)
      → all only_delivers ops ≡ true
      → IsExclusive g.dropoffs
      → IsExclusive (perform_all parse_iso g ops).dropoffs
  unfolding all
  perform_all-IsExclusive g [] d h = h
  perform_all-IsExclusive g (op ∷ ops) d h =
      perform_all-IsExclusive (perform parse_iso g op) ops (ground arith)
        (perform-IsExclusive g op (ground arith) h)

new-IsExclusive :
    (w : FreshnessThresholds) (held : List String) → IsExclusive (new_gate w held).dropoffs
unfolding new_gate Dict.get
new-IsExclusive w held r r' place e e' = cc

-- From a new gate, after any sequence of deliveries, dispatches without a destination, cancellations
-- and emergency changes, accepted or refused: two robots that the gate holds on their way to one place
-- are the same robot.
pub deliveries_exclusive :
    (parse_iso : String → Option Float) (w : FreshnessThresholds) (held : List String)
    (ops : List Op) (r r' place : String)
    → all only_delivers ops ≡ true
    → Dict.get (perform_all parse_iso (new_gate w held) ops).dropoffs r ≡ some place
    → Dict.get (perform_all parse_iso (new_gate w held) ops).dropoffs r' ≡ some place
    → r ≡ r'
deliveries_exclusive parse_iso w held ops r r' place d =
    perform_all-IsExclusive parse_iso (new_gate w held) ops d (new-IsExclusive w held) r r' place
