-- ===== src/Link/Approval.antt =====
-- `CrossingApprovalRegistry` of
-- ws/src/warehouse_teleop/warehouse_teleop/operator_link_logic.py.
pub mod OneShot
use miniature_warehouse_robo.Base.{
  String, Bool, true, false, not, Option, none, some, List, [], ◌∷◌, ◌==◌, ◌&&◌, ◌||◌, is_some,
  if◌then◌else◌,
}
use miniature_warehouse_robo.Base.Dict
use miniature_warehouse_robo.Base.Dict.{Dict}
use miniature_warehouse_robo.Base.Float.{Float, is_finite, flt}
use miniature_warehouse_robo.Link.Session.{CrossingApprovalToken}

-- The registry is the dictionary `_used`: a token's id with the deadline that it was burned with.
abbrev pub Registry : Type 0
Registry = Dict Float

unfoldable pub evict_expired : Registry → Float → Registry
evict_expired [] now_wall = []
evict_expired ((tid, deadline) ∷ used) now_wall =
    let rest = evict_expired used now_wall in
    if flt deadline now_wall then rest else (tid, deadline) ∷ rest

-- The tests after the eviction, in their order.
unfoldable pub is_valid_token :
    Registry → CrossingApprovalToken → Float → String → String → String → Bool
is_valid_token used token now_wall crossing route datum =
    if is_some (Dict.get used token.token_id)
    then false
    else if not (token.crossing_id == crossing)
    then false
    else if not (token.route_version == route)
    then false
    else if not (token.datum_version == datum)
    then false
    else not (flt token.expires_at_s now_wall)

unfoldable pub consume :
    Registry → Option CrossingApprovalToken → Float → String → String → String → Registry × Bool
unfolding evict_expired is_valid_token
consume used none now_wall crossing route datum = (used, false)
consume used (some token) now_wall crossing route datum =
    if not (is_finite now_wall) || not (is_finite token.expires_at_s)
    then (used, false)
    else if token.token_id == ""
    then (used, false)
    else if is_valid_token (evict_expired used now_wall) token now_wall crossing route datum
    then (Dict.put (evict_expired used now_wall) token.token_id token.expires_at_s, true)
    else (evict_expired used now_wall, false)
