-- ===== src/Link/Values.antt =====
-- The JSON values of a control frame and the tests that operator_link_logic.py of
-- ws/src/warehouse_teleop/warehouse_teleop makes of one. An integer has no bound and is apart from a float.
use miniature_warehouse_robo.Base.{
  ℕ, String, Bool, true, false, ◌==◌, Option, none, some, List, [], ◌∷◌, suc, if◌then◌else◌,
}
use miniature_warehouse_robo.Base.Dict.{Dict}
use miniature_warehouse_robo.Base.Int.{ℤ, pos, negsuc}
use miniature_warehouse_robo.Base.Float.{Float, is_finite}

mutual
  pub data Value : Type 0 where
    null : Value
    bool : Bool → Value
    int : ℤ → Value
    num : Float → Value
    str : String → Value
    arr : Items → Value
    obj : Members → Value

  pub data Items : Type 0 where
    nil : Items
    cons : Value → Items → Items

  pub data Members : Type 0 where
    end : Members
    member : String → Value → Members → Members

-- `raised` is an exception that leaves the parser, `ignored` is None.
pub data Failure : Type 0 where
  raised ignored : Failure

pub data Result (A : Type 0) : Type 0 where
  ok : A → Result A
  err : Failure → Result A

infixl 5 ◌>>=◌ ◌>>◌
abbrev pub ◌>>=◌ : {A B : Type 0} → Result A → (A → Result B) → Result B
ok a >>= f = f a
err e >>= f = err e

abbrev pub ◌>>◌ : {B : Type 0} → Result (Unit {0}) → Result B → Result B
m >> k = m >>= λ _. k

-- `if not test: return None`
abbrev pub require : Bool → Result (Unit {0})
require true = ok tt
require false = err ignored

abbrev pub members_of : Members → Dict Value
members_of end = []
members_of (member k v ms) = (k, v) ∷ members_of ms

abbrev pub keys : Dict Value → List String
keys [] = []
keys ((k, v) ∷ d) = k ∷ keys d

abbrev pub counter : Option Value → Result ℕ
counter (some (int (pos n))) = ok n
counter (some (int (negsuc n))) = err ignored
counter none = err ignored
counter (some null) = err ignored
counter (some (bool b)) = err ignored
counter (some (num x)) = err ignored
counter (some (str s)) = err ignored
counter (some (arr xs)) = err ignored
counter (some (obj ms)) = err ignored

abbrev pub finite : Float → Result Float
finite x = if is_finite x then ok x else err ignored

abbrev pub nonempty_str : Option Value → Result String
nonempty_str (some (str s)) = if s == "" then err ignored else ok s
nonempty_str none = err ignored
nonempty_str (some null) = err ignored
nonempty_str (some (bool b)) = err ignored
nonempty_str (some (int n)) = err ignored
nonempty_str (some (num x)) = err ignored
nonempty_str (some (arr xs)) = err ignored
nonempty_str (some (obj ms)) = err ignored

abbrev pub bool_of : Option Value → Result Bool
bool_of (some (bool b)) = ok b
bool_of none = err ignored
bool_of (some null) = err ignored
bool_of (some (int n)) = err ignored
bool_of (some (num x)) = err ignored
bool_of (some (str s)) = err ignored
bool_of (some (arr xs)) = err ignored
bool_of (some (obj ms)) = err ignored

abbrev pub array_of : Option Value → Result Items
array_of (some (arr xs)) = ok xs
array_of none = err ignored
array_of (some null) = err ignored
array_of (some (bool b)) = err ignored
array_of (some (int n)) = err ignored
array_of (some (num x)) = err ignored
array_of (some (str s)) = err ignored
array_of (some (obj ms)) = err ignored

abbrev pub count : Items → ℕ
count nil = 0
count (cons v xs) = suc (count xs)

-- All integers, or `ignored`.
abbrev pub ints_of : Items → Result (List ℤ)
ints_of nil = ok []
ints_of (cons (int n) xs) = ints_of xs >>= λ ns. ok (n ∷ ns)
ints_of (cons null xs) = err ignored
ints_of (cons (bool b) xs) = err ignored
ints_of (cons (num x) xs) = err ignored
ints_of (cons (str s) xs) = err ignored
ints_of (cons (arr ys) xs) = err ignored
ints_of (cons (obj ms) xs) = err ignored
