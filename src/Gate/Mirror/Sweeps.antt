-- ===== src/Gate/Mirror/Sweeps.antt =====
-- One sweep of the mirror, and the agreement of the mirror with its gate.
use miniature_warehouse_robo.Base.{
  ◌≡◌, refl, ◌∙◌, String, Bool, true, false, Option, none, some, [], ◌∷◌, ◌==◌, arith, eq_iff,
  is_some, if◌then◌else◌,
}
use miniature_warehouse_robo.Base.Dict
use miniature_warehouse_robo.Base.Dict.{
  Dict, has, has-add, has-discard, get-put, get-pop, get-put_self,
}
use miniature_warehouse_robo.Base.Dict.Keys.{Uniq, Uniq-put, Uniq-pop}
use miniature_warehouse_robo.Base.Float.{Float, flt, fsub}
use miniature_warehouse_robo.Gate.Policy.{PolicyGate, set_emergency}
use miniature_warehouse_robo.Gate.Mirror.{
  EmergencyLevelMirror, Mirrored, on_stop_signal, clear_if, sweep_items,
}

has-set_emergency :
    (g : PolicyGate) (robot : String) (active : Bool) (bot : String)
    → has (set_emergency g robot active).emergency bot
      ≡ (if robot == bot then active else has g.emergency bot)
unfolding set_emergency
has-set_emergency g robot true bot = ground (arith, has-add g.emergency robot bot)
has-set_emergency g robot false bot = ground (arith, has-discard g.emergency robot bot)

-- Has the robot's signal been silent for longer than the window?
abbrev pub expired : Float → Option Float → Float → Bool
expired window none now = false
expired window (some seen) now = flt window (fsub now seen)

-- The mirror and the gate agree on which robots are held.
pub record IsAgreed (mg : Mirrored) : Type 0 where
  pub uniq : Uniq mg.0.last_stop
  pub agreed : (bot : String) → has mg.1.emergency bot ≡ is_some (Dict.get mg.0.last_stop bot)

pub signal-IsAgreed :
    (mg : Mirrored) (bot : String) (now : Float)
    → IsAgreed mg
    → IsAgreed (on_stop_signal mg bot now)
unfolding on_stop_signal
signal-IsAgreed (m, g) bot now a = record {
  uniq = Uniq-put m.last_stop bot now a.uniq;
  agreed = λ b.
      ground (arith, has-set_emergency g bot true b, get-put m.last_stop bot b now, a.agreed b);
}

clear-IsAgreed :
    (m : EmergencyLevelMirror) (g : PolicyGate) (bot : String)
    → IsAgreed (m, g)
    → IsAgreed (record m { last_stop = Dict.pop m.last_stop bot }, set_emergency g bot false)
clear-IsAgreed m g bot a = record {
  uniq = Uniq-pop m.last_stop bot a.uniq;
  agreed =
      λ b. ground (arith, has-set_emergency g bot false b, get-pop m.last_stop bot b, a.agreed b);
}

-- What the loop over `items` makes of the mirror `m`, as far as `bot` is concerned.
pub record Swept (items : Dict Float) (m : EmergencyLevelMirror) (now : Float) (bot : String)
    (r : Mirrored) : Type 0 where
  pub agrees : IsAgreed r
  pub entry : Dict.get r.0.last_stop bot ≡ (
      if expired m.clear_after_s (Dict.get items bot) now then none else Dict.get m.last_stop bot)
  pub window : r.0.clear_after_s ≡ m.clear_after_s

turn-Swept :
    (k : String) (seen : Float) (items : Dict Float) (m : EmergencyLevelMirror) (g : PolicyGate)
    (now : Float) (bot : String) (b : Bool)
    → flt m.clear_after_s (fsub now seen) ≡ b
    → Dict.get items k ≡ none
    → ((m' : EmergencyLevelMirror) (g' : PolicyGate)
        → IsAgreed (m', g')
        → Swept items m' now bot (sweep_items items (m', g') now))
    → IsAgreed (m, g)
    → Swept ((k, seen) ∷ items) m now bot (sweep_items items (clear_if b (m, g) k) now)
unfolding Dict.get
turn-Swept k seen items m g now bot true late absent ih a =
    let m' = record m { last_stop = Dict.pop m.last_stop k } in
    let s = ih m' (set_emergency g k false) (clear-IsAgreed m g k a) in
    record {
      agrees = s.agrees;
      entry = s.entry ∙ ground (arith, late, get-pop m.last_stop k bot, eq_iff k bot, absent);
      window = s.window;
    }
turn-Swept k seen items m g now bot false early absent ih a =
    let s = ih m g a in
    record {
      agrees = s.agrees;
      entry = s.entry ∙ ground (arith, early, eq_iff k bot, absent);
      window = s.window;
    }

pub sweep_items-Swept :
    (items : Dict Float) (m : EmergencyLevelMirror) (g : PolicyGate) (now : Float) (bot : String)
    → Uniq items
    → IsAgreed (m, g)
    → Swept items m now bot (sweep_items items (m, g) now)
unfolding sweep_items
sweep_items-Swept [] m g now bot u a = record {
  agrees = a;
  entry = unfold Dict.get in refl;
  window = refl;
}
sweep_items-Swept ((k, seen) ∷ items) m g now bot u a =
    turn-Swept k seen items m g now bot (flt m.clear_after_s (fsub now seen)) refl u.0
      (λ m' g' a'. sweep_items-Swept items m' g' now bot u.1 a') a
