-- ===== src/Driver/Core.antt =====
-- driver_core.py of ws/src/warehouse_m1_driver/warehouse_m1_driver: the command path and both watchdogs.
-- A call of the backend is a frame in the list that an operation gives out. Of `config_error` only
-- whether there is one is kept, and a scale is what `float` made of the parameter.
use miniature_warehouse_robo.Base.{
  Bool, true, false, not, ◌&&◌, ◌||◌, Option, none, some, List, [], ◌∷◌, if◌then◌else◌, is_some,
}
use miniature_warehouse_robo.Base.Float.{Float, nan, micro, units, is_finite, flt, fle, fsub, fzero}
use miniature_warehouse_robo.Driver.Clamp.{Arithmetic, clamp_body_velocity}

abbrev pub default_cmd_timeout_s : Float
default_cmd_timeout_s = micro 500_000

abbrev wheel_scale_min : Float
wheel_scale_min = units 1

abbrev wheel_scale_max : Float
wheel_scale_max = micro 2_500_000

abbrev yaw_scale_min : Float
yaw_scale_min = micro 200_000

abbrev yaw_scale_max : Float
yaw_scale_max = units 5

-- `none` is (nan, reason).
abbrev validated_scale : Float → Float → Float → Option Float
validated_scale scale lo hi =
    if not (is_finite scale)
    then none
    else if not (fle lo scale && fle scale hi)
    then none
    else some scale

unfoldable pub positive_or_default : Float → Float → Float
positive_or_default value default =
    if not (is_finite value) || fle value fzero then default else value

-- What the backend is told.
pub data Frame : Type 0 where
  velocity : Float → Float → Float → Frame
  brake : Frame
  reset_state : Frame

pub record M1DriverCore : Type 0 where
  pub cmd_timeout_s : Float
  pub last_cmd_time : Option Float
  pub stale : Bool
  pub shutdown_done : Bool
  pub stop_overlay_enabled : Bool
  pub overlay_permit_until : Option Float
  pub overlay_deadline_watermark : Option Float
  pub wheel_scale : Float
  pub yaw_scale : Float
  pub lateral_enabled : Bool
  pub config_error : Bool

abbrev scale_or_nan : Option Float → Float
scale_or_nan none = nan
scale_or_nan (some scale) = scale

unfoldable pub new_core : Float → Bool → Float → Float → Bool → M1DriverCore
unfolding positive_or_default is_finite fle
new_core cmd_timeout overlay wheel_scale yaw_scale lateral =
    let wheel = validated_scale wheel_scale wheel_scale_min wheel_scale_max in
    let yaw = validated_scale yaw_scale yaw_scale_min yaw_scale_max in
    record {
      cmd_timeout_s = positive_or_default cmd_timeout default_cmd_timeout_s;
      last_cmd_time = none;
      stale = true;
      shutdown_done = false;
      stop_overlay_enabled = overlay;
      overlay_permit_until = none;
      overlay_deadline_watermark = none;
      wheel_scale = scale_or_nan wheel;
      yaw_scale = scale_or_nan yaw;
      lateral_enabled = lateral;
      config_error = not (is_some wheel) || not (is_some yaw);
    }

abbrev pub regressed : Option Float → Float → Bool
regressed none valid_until = false
regressed (some watermark) valid_until = flt valid_until watermark

unfoldable pub on_stop_state : M1DriverCore → Bool → Float → M1DriverCore
on_stop_state c stop_requested valid_until =
    if not c.stop_overlay_enabled
    then c
    else if not (is_finite valid_until)
        || (fle valid_until fzero || regressed c.overlay_deadline_watermark valid_until)
    then record c { overlay_permit_until = none }
    else record c {
      overlay_deadline_watermark = some valid_until;
      overlay_permit_until = if stop_requested then none else some valid_until;
    }

abbrev pub expired : Option Float → Float → Bool
expired none now = true
expired (some until) now = flt until now

unfoldable pub overlay_blocks : M1DriverCore → Float → Bool
overlay_blocks c now =
    if not c.stop_overlay_enabled then false else expired c.overlay_permit_until now

unfoldable pub to_wire : Arithmetic → M1DriverCore → Float × Float × Float → Frame
to_wire a c (vx, vy, wz) =
    velocity (a.div vx c.wheel_scale) (a.div vy c.wheel_scale)
      (a.div wz (a.mul c.wheel_scale c.yaw_scale))

-- The vy that is driven: none where the wheels cannot drive it.
unfoldable pub lateral : M1DriverCore → Float → Float
lateral c vy = if not c.lateral_enabled && is_finite vy then fzero else vy

unfoldable pub on_cmd_vel :
    Arithmetic → M1DriverCore → Float → Float → Float → Float → M1DriverCore × List Frame
on_cmd_vel a c vx vy wz now =
    let c' = record c { last_cmd_time = some now; stale = false } in
    if c'.config_error
    then (c', brake ∷ [])
    else if overlay_blocks c' now
    then (c', brake ∷ [])
    else (c', to_wire a c' (clamp_body_velocity a vx (lateral c' vy) wz) ∷ [])

abbrev pub fresh : Option Float → Float → Float → Bool
fresh none timeout now = false
fresh (some last) timeout now = fle (fsub now last) timeout

-- Returns the core, whether it braked, and the frames.
unfoldable pub on_watchdog_tick : M1DriverCore → Float → M1DriverCore × Bool × List Frame
on_watchdog_tick c now =
    let is_fresh = fresh c.last_cmd_time c.cmd_timeout_s now in
    let c' = if not is_fresh then record c { stale = true } else c in
    if not c'.config_error && (is_fresh && not (overlay_blocks c' now))
    then (c', false, [])
    else (c', true, brake ∷ [])

unfoldable pub shutdown_sequence : M1DriverCore → M1DriverCore × List Frame
shutdown_sequence c =
    if c.shutdown_done
    then (c, [])
    else (record c { shutdown_done = true }, brake ∷ reset_state ∷ [])
