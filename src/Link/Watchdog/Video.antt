-- ===== src/Link/Watchdog/Video.antt =====
-- The video channel recovers from any frames that it has seen.
use miniature_warehouse_robo.Base.{
  ◌≡◌, refl, ◌∙◌, Bool, true, false, ◌||◌, none, some, List, [], ◌∷◌, arith, all, Option-cases, inl,
  inr,
}
use miniature_warehouse_robo.Base.Int.{pos, ◌-ℤ◌, ◌+ℤ◌, -ℤ_parts, +ℤ_parts}
use miniature_warehouse_robo.Base.Float.{
  Float, nan, inf, neg_inf, fin, is_finite, flt, fle, fadd, fsub, fabs, fneg, fzero, fsub_self,
}
use miniature_warehouse_robo.Link.Session.{require_finite}
use miniature_warehouse_robo.Link.Watchdog.{
  VideoFreshness, fresh, new_video, observe_frame, verdict, is_older,
}

-- A frame: its stamp, and the wall and the monotonic clock at its arrival.
abbrev pub Frame : Type 0
Frame = Float × Float × Float

abbrev pub observe_all : VideoFreshness → List Frame → VideoFreshness
observe_all v [] = v
observe_all v ((stamp, wall, mono) ∷ fs) = observe_all (observe_frame v stamp wall mono).0 fs

-- The frame carries a stamp below s, or came more than the allowed skew before s.
abbrev precedes : Float → Float → Frame → Bool
precedes skew s (stamp, wall, mono) = flt stamp s || flt (fadd wall skew) s

abbrev last_before : VideoFreshness → Float → Bool
last_before v s = elim v.last_stamp_s [ none ↦ true | some last ↦ flt last s ]

-- A stamp within the skew of the wall clock is not above their sum.
stamp_bound :
    (stamp wall skew : Float)
    → is_finite stamp ≡ true
    → is_finite wall ≡ true
    → is_finite skew ≡ true
    → flt skew (fabs (fsub stamp wall)) ≡ false
    → fle stamp (fadd wall skew) ≡ true
unfolding flt fle fadd fsub fabs fneg is_finite
stamp_bound (fin a) (fin b) (fin c) f g h k =
    ground (arith, -ℤ_parts a b, +ℤ_parts b c, -ℤ_parts (pos 0) (a -ℤ b))
stamp_bound nan wall skew f g h k = cc
stamp_bound inf wall skew f g h k = cc
stamp_bound neg_inf wall skew f g h k = cc
stamp_bound (fin a) nan skew f g h k = cc
stamp_bound (fin a) inf skew f g h k = cc
stamp_bound (fin a) neg_inf skew f g h k = cc
stamp_bound (fin a) (fin b) nan f g h k = cc
stamp_bound (fin a) (fin b) inf f g h k = cc
stamp_bound (fin a) (fin b) neg_inf f g h k = cc

fle-flt_trans : (x y z : Float) → fle x y ≡ true → flt y z ≡ true → flt x z ≡ true
unfolding flt fle
fle-flt_trans x y z h k = ground arith

observe-keeps :
    (v : VideoFreshness) (stamp wall mono s : Float)
    → is_finite v.max_stamp_skew_s ≡ true
    → (flt stamp s || flt (fadd wall v.max_stamp_skew_s) s) ≡ true
    → last_before v s ≡ true
    → (last_before (observe_frame v stamp wall mono).0 s ≡ true)
      × ((observe_frame v stamp wall mono).0.max_stamp_skew_s ≡ v.max_stamp_skew_s)
      × ((observe_frame v stamp wall mono).0.stale_after_s ≡ v.stale_after_s)
unfolding observe_frame
observe-keeps v stamp wall mono s f later h =
    let bound = stamp_bound stamp wall v.max_stamp_skew_s in
    let trans = fle-flt_trans stamp (fadd wall v.max_stamp_skew_s) s in
    (ground (arith, bound, trans), ground arith, ground arith)

observe_all-keeps :
    (v : VideoFreshness) (fs : List Frame) (s : Float)
    → is_finite v.max_stamp_skew_s ≡ true
    → all (precedes v.max_stamp_skew_s s) fs ≡ true
    → last_before v s ≡ true
    → (last_before (observe_all v fs) s ≡ true)
      × ((observe_all v fs).max_stamp_skew_s ≡ v.max_stamp_skew_s)
      × ((observe_all v fs).stale_after_s ≡ v.stale_after_s)
unfolding all
observe_all-keeps v [] s f earlier h = (h, refl, refl)
observe_all-keeps v ((stamp, wall, mono) ∷ fs) s f earlier h =
    let v' = (observe_frame v stamp wall mono).0 in
    let (h', skew, window) = observe-keeps v stamp wall mono s f (ground arith) h in
    let (h'', skew', window') = observe_all-keeps v' fs s (rw skew f) (rw skew (ground arith)) h' in
    (h'', skew' ∙ skew, window' ∙ window)

flt-not_older : (x y : Float) → flt x y ≡ true → fle y x ≡ false
unfolding flt fle
flt-not_older x y h = ground arith

not_older :
    (v : VideoFreshness) (s : Float) → last_before v s ≡ true → is_older v.last_stamp_s s ≡ false
not_older v s h = elim (Option-cases v.last_stamp_s) [
  | inl unseen ↦ rw unseen refl
  | inr (last, e) ↦ ground (arith, e, flt-not_older last s)
]

new-windows :
    (stale_after skew : Float) {v : VideoFreshness}
    → new_video stale_after skew ≡ some v
    → (v.max_stamp_skew_s ≡ skew)
      × (is_finite skew ≡ true)
      × (flt v.stale_after_s fzero ≡ false)
      × (v.last_stamp_s ≡ none)
unfolding new_video require_finite
new-windows stale_after skew h = (ground arith, ground arith, ground arith, ground arith)

fresh_at_arrival :
    (v : VideoFreshness) (mono : Float)
    → is_finite mono ≡ true
    → flt v.stale_after_s fzero ≡ false
    → v.last_arrival_mono_s ≡ some mono
    → verdict v mono ≡ fresh
unfolding verdict
fresh_at_arrival v mono f window e = rw (e, f, fsub_self mono f, window) (unfold flt in refl)

accepted :
    (v : VideoFreshness) (stamp wall mono : Float)
    → is_finite stamp ≡ true
    → is_finite wall ≡ true
    → is_finite mono ≡ true
    → flt v.max_stamp_skew_s (fabs (fsub stamp wall)) ≡ false
    → is_older v.last_stamp_s stamp ≡ false
    → observe_frame v stamp wall mono
      ≡ (record v { last_stamp_s = some stamp; last_arrival_mono_s = some mono }, true)
unfolding observe_frame
accepted v stamp wall mono fs fw fm near newer = rw (fs, fw, fm, near, newer) refl

-- A frame with usable clocks and a stamp within the allowed skew of the wall clock is accepted, and makes
-- the picture fresh, if every frame before it has a smaller stamp or came more than the skew before its
-- stamp.
later_stamp_accepted :
    (stale_after skew : Float) {v : VideoFreshness} (fs : List Frame) (stamp wall mono : Float)
    → new_video stale_after skew ≡ some v
    → all (precedes skew stamp) fs ≡ true
    → is_finite stamp ≡ true
    → is_finite wall ≡ true
    → is_finite mono ≡ true
    → flt skew (fabs (fsub stamp wall)) ≡ false
    → ((observe_frame (observe_all v fs) stamp wall mono).1 ≡ true)
      × (verdict (observe_frame (observe_all v fs) stamp wall mono).0 mono ≡ fresh)
later_stamp_accepted stale_after skew {v} fs stamp wall mono start earlier fs_ok fw fm near =
    let (k, fk, window, unseen) = new-windows stale_after skew start in
    let (b, skew', window') =
      observe_all-keeps v fs stamp (rw k fk) (rw k earlier) (rw unseen refl) in
    let v' = observe_all v fs in
    let taken =
      accepted v' stamp wall mono fs_ok fw fm (rw (skew', k) near) (not_older v' stamp b) in
    rw taken (
      refl,
      fresh_at_arrival (record v' { last_stamp_s = some stamp; last_arrival_mono_s = some mono })
          mono fm (rw window' window) refl,
    )

-- The frame carries a stamp below s, or came more than twice the allowed skew before the wall clock w.
abbrev pub earlier_or_long_before : Float → Float → Float → Frame → Bool
earlier_or_long_before skew s w (stamp, wall, mono) =
    flt stamp s || flt (fadd (fadd wall skew) skew) w

-- A frame that came long before a stamp near the wall clock came more than the skew before the stamp.
precedes_of_long :
    (skew stamp wall before : Float)
    → is_finite stamp ≡ true
    → is_finite wall ≡ true
    → is_finite skew ≡ true
    → flt skew (fabs (fsub stamp wall)) ≡ false
    → flt (fadd (fadd before skew) skew) wall ≡ true
    → flt (fadd before skew) stamp ≡ true
unfolding flt fle fadd fsub fabs fneg is_finite
precedes_of_long (fin c) (fin a) (fin b) (fin d) f g h near long =
    ground (arith, -ℤ_parts a b, +ℤ_parts d c, +ℤ_parts (d +ℤ c) c, -ℤ_parts (pos 0) (a -ℤ b))
precedes_of_long (fin c) (fin a) (fin b) x f g h near long = ground arith
precedes_of_long skew stamp wall x f g h near long = ground arith

all_precede :
    (skew stamp wall : Float) (fs : List Frame)
    → is_finite stamp ≡ true
    → is_finite wall ≡ true
    → is_finite skew ≡ true
    → flt skew (fabs (fsub stamp wall)) ≡ false
    → all (earlier_or_long_before skew stamp wall) fs ≡ true
    → all (precedes skew stamp) fs ≡ true
unfolding all
all_precede skew stamp wall [] f g h near long = refl
all_precede skew stamp wall ((s, before, mono) ∷ fs) f g h near long =
    let late = precedes_of_long skew stamp wall before f g h near in
    let rest = all_precede skew stamp wall fs f g h near (ground arith) in
    ground (arith, late, rest)

-- From a new channel: a frame with usable clocks and a stamp within the allowed skew of the wall clock is
-- accepted, and makes the picture fresh, after any frames each of which has a smaller stamp or came more
-- than twice the skew ago by the wall clock.
pub video_recovers :
    (stale_after skew : Float) {v : VideoFreshness} (fs : List Frame) (stamp wall mono : Float)
    → new_video stale_after skew ≡ some v
    → all (earlier_or_long_before skew stamp wall) fs ≡ true
    → is_finite stamp ≡ true
    → is_finite wall ≡ true
    → is_finite mono ≡ true
    → flt skew (fabs (fsub stamp wall)) ≡ false
    → ((observe_frame (observe_all v fs) stamp wall mono).1 ≡ true)
      × (verdict (observe_frame (observe_all v fs) stamp wall mono).0 mono ≡ fresh)
video_recovers stale_after skew fs stamp wall mono start long f g h near =
    let skew_ok = (new-windows stale_after skew start).1 in
    later_stamp_accepted stale_after skew fs stamp wall mono start
      (all_precede skew stamp wall fs f g skew_ok near long) f g h near
