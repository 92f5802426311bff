-- ===== src/Gate/Mirror.antt =====
-- `EmergencyLevelMirror` of ws/src/warehouse_mcp_server/warehouse_mcp_server/emergency_sync.py, with
-- the Policy Gate whose `set_emergency` it calls.
mod Sweeps
pub mod Holds
use miniature_warehouse_robo.Base.{String, Bool, true, false, List, [], ◌∷◌, map}
use miniature_warehouse_robo.Base.Dict
use miniature_warehouse_robo.Base.Dict.{Dict}
use miniature_warehouse_robo.Base.Float.{Float, flt, fsub}
use miniature_warehouse_robo.Gate.Policy.{PolicyGate, set_emergency}

pub record EmergencyLevelMirror : Type 0 where
  pub clear_after_s : Float
  pub last_stop : Dict Float

-- The mirror and its gate.
abbrev pub Mirrored : Type 0
Mirrored = EmergencyLevelMirror × PolicyGate

pub new_mirror : Float → EmergencyLevelMirror
new_mirror clear_after_s = record { clear_after_s = clear_after_s; last_stop = [] }

pub on_stop_signal : Mirrored → String → Float → Mirrored
on_stop_signal (m, g) bot now =
    (record m { last_stop = Dict.put m.last_stop bot now }, set_emergency g bot true)

-- One turn of the loop in `sweep`, with its test.
abbrev pub clear_if : Bool → Mirrored → String → Mirrored
clear_if true (m, g) bot =
    (record m { last_stop = Dict.pop m.last_stop bot }, set_emergency g bot false)
clear_if false mg bot = mg

-- The loop over a copy of the items.
pub sweep_items : Dict Float → Mirrored → Float → Mirrored
sweep_items [] mg now = mg
sweep_items ((bot, seen) ∷ items) mg now =
    sweep_items items (clear_if (flt mg.0.clear_after_s (fsub now seen)) mg bot) now

pub sweep : Mirrored → Float → Mirrored
unfolding sweep_items
sweep (m, g) now = sweep_items m.last_stop (m, g) now

unfoldable pub held_bots : EmergencyLevelMirror → List String
held_bots m = map (λ e. e.0) m.last_stop
