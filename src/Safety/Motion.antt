-- ===== src/Safety/Motion.antt =====
-- ws/src/warehouse_safety/warehouse_safety/guard_logic.py: `BlockTracker` and `PoseGateTracker`.
-- The functions of the module `math` are the fields of `MathLib`.
mod Totals
pub mod Growth
pub mod Blocked
pub mod Dropout
pub mod Travel
use miniature_warehouse_robo.Base.{
  String, Bool, true, false, not, Option, none, some, [], ◌&&◌, ◌||◌, if◌then◌else◌,
}
use miniature_warehouse_robo.Base.Dict
use miniature_warehouse_robo.Base.Dict.{Dict}
use miniature_warehouse_robo.Base.Float.{Float, is_finite, flt, fle, fadd, fsub, fabs, fzero, micro}
use miniature_warehouse_robo.Safety.Guard.{distance}

pub record MathLib : Type 0 where
  pub hypot : Float → Float → Float
  pub atan2 : Float → Float → Float
  pub sin : Float → Float
  pub cos : Float → Float

-- `d.get(k, default)`
abbrev pub get_or : Dict Float → String → Float → Float
get_or d k default = elim (Dict.get d k) [ none ↦ default | some v ↦ v ]

-- `d.setdefault(k, v)`
abbrev pub set_default : Dict Float → String → Float → Dict Float
set_default d k v = elim (Dict.get d k) [ none ↦ Dict.put d k v | some w ↦ d ]

pub record BlockTracker : Type 0 where
  pub epsilon : Float
  pub last_xy : Dict (Float × Float)
  pub last_moved_t : Dict Float

unfoldable pub new_block_tracker : BlockTracker
new_block_tracker = record { epsilon = micro 20_000; last_xy = []; last_moved_t = [] }

-- `prev is None or distance(...) >= epsilon`
unfoldable pub moved : MathLib → Float → Option (Float × Float) → Float → Float → Bool
moved m epsilon none x y = true
moved m epsilon (some (px, py)) x y = fle epsilon (distance m.hypot px py x y)

-- Returns the tracker and the time for which the robot has been blocked.
pub update : MathLib → BlockTracker → String → Float → Float → Float → BlockTracker × Float
update m b bot x y now =
    if moved m b.epsilon (Dict.get b.last_xy bot) x y
    then (
      record b {
        last_xy = Dict.put b.last_xy bot (x, y);
        last_moved_t = Dict.put b.last_moved_t bot now;
      },
      fzero,
    )
    else (b, fsub now (get_or b.last_moved_t bot now))

pub record PoseGateTracker : Type 0 where
  pub disp : Dict Float
  pub dyaw : Dict Float
  pub last : Dict (Float × Float × Float)
  pub odom_t : Dict Float

unfoldable pub new_pose_gate : PoseGateTracker
new_pose_gate = record { disp = []; dyaw = []; last = []; odom_t = [] }

unfoldable pub wrap_angle : MathLib → Float → Float
wrap_angle m a = m.atan2 (m.sin a) (m.cos a)

pub forget : PoseGateTracker → String → PoseGateTracker
forget g bot = record {
  disp = Dict.pop g.disp bot;
  dyaw = Dict.pop g.dyaw bot;
  last = Dict.pop g.last bot;
  odom_t = Dict.pop g.odom_t bot;
}

-- The two accumulators after a sample that follows `prev`.
unfoldable pub accumulate :
    MathLib
    → PoseGateTracker
    → String
    → Option (Float × Float × Float)
    → Float
    → Float
    → Float
    → PoseGateTracker
accumulate m g bot none x y yaw = record g {
  disp = set_default g.disp bot fzero;
  dyaw = set_default g.dyaw bot fzero;
}
accumulate m g bot (some (px, py, pyaw)) x y yaw = record g {
  disp = Dict.put g.disp bot (fadd (get_or g.disp bot fzero) (distance m.hypot px py x y));
  dyaw = Dict.put g.dyaw bot (fadd (get_or g.dyaw bot fzero) (fabs (wrap_angle m (fsub yaw pyaw))));
}

abbrev pub sample_is_finite : Float → Float → Float → Float → Bool
sample_is_finite x y yaw now = is_finite x && (is_finite y && (is_finite yaw && is_finite now))

unfoldable pub on_odom :
    MathLib → PoseGateTracker → String → Float → Float → Float → Float → PoseGateTracker
on_odom m g bot x y yaw now =
    if not (sample_is_finite x y yaw now)
    then forget g bot
    else record (accumulate m g bot (Dict.get g.last bot) x y yaw) {
      last = Dict.put g.last bot (x, y, yaw);
      odom_t = Dict.put g.odom_t bot now;
    }

pub on_pose : PoseGateTracker → String → PoseGateTracker
on_pose g bot = record g { disp = Dict.put g.disp bot fzero; dyaw = Dict.put g.dyaw bot fzero }

-- Is odometry received at `t` fresh at `now`?
pub odom_is_fresh : Option Float → Float → Float → Bool
odom_is_fresh none now stale_after = false
odom_is_fresh (some t) now stale_after =
    is_finite stale_after && (fle fzero (fsub now t) && fle (fsub now t) stale_after)

pub snapshot : PoseGateTracker → String → Float → Float → Option Float × Option Float
snapshot g bot now stale_after =
    if odom_is_fresh (Dict.get g.odom_t bot) now stale_after
    then (Dict.get g.disp bot, Dict.get g.dyaw bot)
    else (none, none)
