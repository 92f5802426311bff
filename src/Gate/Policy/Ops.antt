-- ===== src/Gate/Policy/Ops.antt =====
-- The calls of the gate, and any sequence of them.
use miniature_warehouse_robo.Base.{ℕ, String, Bool, Option, List, [], ◌∷◌}
use miniature_warehouse_robo.Base.Float.{Float}
use miniature_warehouse_robo.Gate.Policy.{
  PolicyGate, FleetState, set_emergency, validate_and_register_dispatch, resolve_and_clear_active,
  resolve_and_clear_by_task_id, validate_and_register_charging,
}

pub data Op : Type 0 where
  dispatch : FleetState → Option String → Option String → Option String → String → Float → Op
  charge : FleetState → String → Float → Op
  cancel : String → Op
  cancel_id : ℕ → Op
  emergency : String → Bool → Op

module _ (parse_iso : String → Option Float) where
  abbrev pub perform : PolicyGate → Op → PolicyGate
  perform g (dispatch state robot pickup dropoff action now) =
      (validate_and_register_dispatch parse_iso g state robot pickup dropoff action now).0
  perform g (charge state robot now) =
      (validate_and_register_charging parse_iso g state robot now).0
  perform g (cancel robot) = (resolve_and_clear_active g robot).0
  perform g (cancel_id task_id) = (resolve_and_clear_by_task_id g task_id).0
  perform g (emergency robot active) = set_emergency g robot active

  abbrev pub perform_all : PolicyGate → List Op → PolicyGate
  perform_all g [] = g
  perform_all g (op ∷ ops) = perform_all (perform g op) ops
