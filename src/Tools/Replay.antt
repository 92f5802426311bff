-- ===== src/Tools/Replay.antt =====
-- gen_check.py of ws/src/warehouse_mcp_server/warehouse_mcp_server, with the file stores of
-- ws/src/warehouse_interfaces/warehouse_interfaces/stores.py. The file of the generation is missing, which
-- reads as 0, or holds a natural number; a file whose text is no number, on which `FileGenStore.get` raises
-- ValueError, is outside of the model. The file of the keys is the object that it holds, with numbers as
-- values; a missing or damaged one reads as empty.
pub mod Once
use miniature_warehouse_robo.Base.{
  ℕ, ◌+◌, String, Bool, true, false, not, Option, none, some, List, [], ◌∷◌, ltb, leb, is_some,
  if◌then◌else◌,
}
use miniature_warehouse_robo.Base.Dict
use miniature_warehouse_robo.Base.Dict.{Dict}

abbrev pub idempotency_window_gens : ℕ
idempotency_window_gens = 8

unfoldable pub is_stale : ℕ → ℕ → Bool
is_stale gen_id cur_gen = ltb gen_id cur_gen

-- `FileGenStore.get` of what the file holds, `none` if there is no file.
abbrev pub current_gen : Option ℕ → ℕ
current_gen none = 0
current_gen (some gen) = gen

-- Keys of the window: those with g ≥ gen - window.
unfoldable pub evict : Dict ℕ → ℕ → Dict ℕ
evict [] gen = []
evict ((k, g) ∷ consumed) gen =
    let rest = evict consumed gen in
    if leb gen (g + idempotency_window_gens) then (k, g) ∷ rest else rest

-- Returns the store and whether the key is new.
unfoldable pub check_and_add : Dict ℕ → String → ℕ → Dict ℕ × Bool
unfolding evict
check_and_add consumed key gen =
    if is_some (Dict.get consumed key)
    then (consumed, false)
    else (evict (Dict.put consumed key gen) gen, true)

pub data Refusal : Type 0 where
  stale_generation duplicate_command : Refusal

pub record Stores : Type 0 where
  pub gen : Option ℕ
  pub consumed : Dict ℕ

abbrev dedup : Stores → ℕ → Option String → Stores × Option Refusal
dedup s gen_id none = (s, none)
dedup s gen_id (some key) =
    let (consumed, new) = check_and_add s.consumed key gen_id in
    (record s { consumed = consumed }, if new then none else some duplicate_command)

-- Returns the stores and why the call is refused, if it is.
unfoldable pub check : Stores → ℕ → Option String → Stores × Option Refusal
unfolding is_stale check_and_add
check s gen_id key =
    if is_stale gen_id (current_gen s.gen) then (s, some stale_generation) else dedup s gen_id key

-- `FileGenStore.set`
abbrev pub publish : Stores → ℕ → Stores
publish s gen = record s { gen = some gen }
