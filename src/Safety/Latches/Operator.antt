-- ===== src/Safety/Latches/Operator.antt =====
-- The operator's stop over a stream of payloads.
use miniature_warehouse_robo.Base.{
  String, ◌≡◌, refl, Bool, true, false, Option, none, some, List, [], ◌∷◌, arith,
}
use miniature_warehouse_robo.Base.Json.{Json}
use miniature_warehouse_robo.Safety.Latches.{
  OperatorAction, engage, clear, OperatorStopLatch, parse_operator_stop_action, feed,
}

abbrev pub feed_all : (String → Option Json) → OperatorStopLatch → List String → OperatorStopLatch
feed_all loads latch [] = latch
feed_all loads latch (raw ∷ raws) = feed_all loads (feed loads latch raw).0 raws

-- The last action that a stream names.
unfoldable pub last_action : (String → Option Json) → List String → Option OperatorAction
last_action loads [] = none
last_action loads (raw ∷ raws) = elim (last_action loads raws) [
  | some a ↦ some a
  | none ↦ parse_operator_stop_action loads raw
]

abbrev pub state_after : Bool → Option OperatorAction → Bool
state_after before none = before
state_after before (some engage) = true
state_after before (some clear) = false

-- After any stream of payloads the stop is as the last recognised action left it: held after an
-- engage until a payload says clear, whatever garbage, repetition or silence follows, and unchanged
-- if no payload is recognised.
pub engaged-feed_all :
    (loads : String → Option Json) (latch : OperatorStopLatch) (raws : List String)
    → (feed_all loads latch raws).engaged ≡ state_after latch.engaged (last_action loads raws)
unfolding last_action feed
engaged-feed_all loads latch [] = refl
engaged-feed_all loads latch (raw ∷ raws) =
    ground (arith, engaged-feed_all loads (feed loads latch raw).0 raws)
