-- ===== src/Link/Approval/OneShot.antt =====
-- A token approves one crossing once.
use miniature_warehouse_robo.Base.{
  ◌≡◌, refl, String, Bool, true, false, not, Option, none, some, List, [], ◌∷◌, arith, eq_iff, all,
}
use miniature_warehouse_robo.Base.Dict
use miniature_warehouse_robo.Base.Dict.{Dict, get-put, get-put_self}
use miniature_warehouse_robo.Base.Float.{Float, flt, fle, flt-fle_trans}
use miniature_warehouse_robo.Link.Session.{CrossingApprovalToken}
use miniature_warehouse_robo.Link.Approval.{Registry, evict_expired, is_valid_token, consume}

-- One presentation: the token, the wall clock, and what it has to match.
pub record Presentation : Type 0 where
  pub token : Option CrossingApprovalToken
  pub now_wall : Float
  pub crossing : String
  pub route : String
  pub datum : String

abbrev present : Registry → Presentation → Registry
present used p = (consume used p.token p.now_wall p.crossing p.route p.datum).0

abbrev pub present_all : Registry → List Presentation → Registry
present_all used [] = used
present_all used (p ∷ ps) = present_all (present used p) ps

get-evict_expired :
    (used : Registry) (now_wall : Float) (tid : String) (deadline : Float)
    → flt deadline now_wall ≡ false
    → Dict.get used tid ≡ some deadline
    → Dict.get (evict_expired used now_wall) tid ≡ some deadline
unfolding evict_expired Dict.get
get-evict_expired [] now_wall tid deadline h e = cc
get-evict_expired ((k, d) ∷ used) now_wall tid deadline h e =
    ground (arith, get-evict_expired used now_wall tid deadline h)

consume-keeps :
    (used : Registry) (o : Option CrossingApprovalToken) (now_wall : Float)
    (crossing route datum tid : String) (deadline : Float)
    → flt deadline now_wall ≡ false
    → Dict.get used tid ≡ some deadline
    → Dict.get (consume used o now_wall crossing route datum).0 tid ≡ some deadline
unfolding consume is_valid_token
consume-keeps used none now_wall crossing route datum tid deadline h e = e
consume-keeps used (some token) now_wall crossing route datum tid deadline h e = ground (
  arith,
  e,
  get-evict_expired used now_wall tid deadline h e,
  get-put (evict_expired used now_wall) token.token_id tid token.expires_at_s,
  eq_iff token.token_id tid,
)

-- The wall clock has not passed the deadline.
abbrev before : Float → Presentation → Bool
before deadline p = not (flt deadline p.now_wall)

present_all-keeps :
    (used : Registry) (ps : List Presentation) (tid : String) (deadline : Float)
    → all (before deadline) ps ≡ true
    → Dict.get used tid ≡ some deadline
    → Dict.get (present_all used ps) tid ≡ some deadline
unfolding all
present_all-keeps used [] tid deadline h e = e
present_all-keeps used (p ∷ ps) tid deadline h e =
    present_all-keeps (present used p) ps tid deadline (ground arith) (
      consume-keeps used p.token p.now_wall p.crossing p.route p.datum tid deadline (ground arith)
        e)

consumed :
    (used : Registry) (token : CrossingApprovalToken) (now_wall : Float)
    (crossing route datum : String)
    → (consume used (some token) now_wall crossing route datum).1 ≡ true
    → Dict.get (consume used (some token) now_wall crossing route datum).0 token.token_id
      ≡ some token.expires_at_s
unfolding consume
consumed used token now_wall crossing route datum h =
    ground (arith, get-put_self (evict_expired used now_wall) token.token_id token.expires_at_s)

refused :
    (used : Registry) (token : CrossingApprovalToken) (now_wall : Float)
    (crossing route datum : String)
    → (flt token.expires_at_s now_wall ≡ false
        → Dict.get used token.token_id ≡ some token.expires_at_s)
    → (consume used (some token) now_wall crossing route datum).1 ≡ false
unfolding consume is_valid_token
refused used token now_wall crossing route datum h =
    ground (arith, get-evict_expired used now_wall token.token_id token.expires_at_s, h)

-- The wall clock of a presentation is not after `later`.
abbrev pub not_after : Float → Presentation → Bool
not_after later p = fle p.now_wall later

all-before :
    (deadline later : Float) (ps : List Presentation)
    → flt deadline later ≡ false
    → all (not_after later) ps ≡ true
    → all (before deadline) ps ≡ true
unfolding all
all-before deadline later [] h k = refl
all-before deadline later (p ∷ ps) h k =
    ground (arith, flt-fle_trans deadline p.now_wall later, all-before deadline later ps h)

-- A token that has approved a crossing approves none again, whatever the presentation has to match and
-- whatever other presentations come between, as long as none of them is at a wall clock after that
-- of the second one. A forgotten token has expired by then.
pub token_once :
    (used : Registry) (token : CrossingApprovalToken) (now_wall : Float)
    (crossing route datum : String) (ps : List Presentation) (later : Float)
    (crossing' route' datum' : String)
    → (consume used (some token) now_wall crossing route datum).1 ≡ true
    → all (not_after later) ps ≡ true
    → (consume
        (present_all (consume used (some token) now_wall crossing route datum).0 ps)
        (some token)
        later
        crossing'
        route'
        datum').1
      ≡ false
token_once used token now_wall crossing route datum ps later crossing' route' datum' ok ordered =
    let used' = (consume used (some token) now_wall crossing route datum).0 in
    refused (present_all used' ps) token later crossing' route' datum' (λ valid.
      present_all-keeps used' ps token.token_id token.expires_at_s
        (all-before token.expires_at_s later ps valid ordered)
        (consumed used token now_wall crossing route datum ok))
