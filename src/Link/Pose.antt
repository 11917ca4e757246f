-- ===== src/Link/Pose.antt =====
-- The arm's measured pose in arm_tracking_ros.py: `_observe_pose` and `fresh_pose`.
use bxi_car_v.Base.{
  String, Bool, true, false, not, ◌&&◌, ◌||◌, Option, none, some, List, [], ◌∷◌, ◌≡◌, arith,
  if◌then◌else◌,
}
use bxi_car_v.Base.Maybe.{◌>>=◌, >>=-eq-some}
use bxi_car_v.Base.Int.{ℤ, pos, ◌-ℤ◌, ◌≤ℤ◌, leb_ℤ}
use bxi_car_v.Base.Numeric.{Numeric, Vec3}
use text.Mathlib.Text.{◌==◌ as str_eq}

-- A `PoseStamped`; the header's stamp is in nanoseconds.
pub record Message (F : Type 0) : Type 0 where
  pub frame_id : String
  pub stamp_ns : ℤ
  pub position : Vec3 F
  pub qx : F
  pub qy : F
  pub qz : F
  pub qw : F

-- `pose` and `pose_received_at`, which are set and cleared together, and `pose_stamp_ns`.
pub record Feedback (F : Type 0) : Type 0 where
  pub pose : Option (Vec3 F × F)
  pub pose_stamp_ns : Option ℤ

-- Not after the last stamp that was accepted.
abbrev pub is_old : ℤ → Option ℤ → Bool
is_old stamp none = false
is_old stamp (some last) = leb_ℤ stamp last

module _ (n : Numeric) where
  open n use {F, lt, le, is_finite, of_int, lit, add, sub, mul, div, neg, abs, sin, cos, atan2}

  -- `(now_ns - stamp) / 1e9`, `none` being the OverflowError.
  age_of : ℤ → ℤ → Option F
  age_of now_ns stamp = of_int (now_ns -ℤ stamp) >>= λ d. some (div d (lit 1000000000 0))

  finite_values : Message F → Bool
  finite_values m =
      (is_finite m.position.x && (is_finite m.position.y && is_finite m.position.z))
      && (is_finite m.qx && (is_finite m.qy && (is_finite m.qz && is_finite m.qw)))

  -- The tests of the message, in the order of the source, the last stamp apart.
  unfoldable pub refused : Message F → F → Bool
  unfolding finite_values
  refused m age =
      (not (str_eq m.frame_id "arm_shoulder") || not (finite_values m))
      || ((lt (lit 1 6) (abs m.position.y) || (lt (lit 1 6) (abs m.qx) || lt (lit 1 6) (abs m.qz)))
          || (lt (lit 1 6) (abs (sub (add (mul m.qy m.qy) (mul m.qw m.qw)) (lit 1 0)))
              || (leb_ℤ m.stamp_ns (pos 0) || not (le (lit 0 0) age && le age (lit 25 2)))))

  pitch_of : Message F → F
  pitch_of m = let pitch = mul (neg (lit 2 0)) (atan2 m.qy m.qw) in atan2 (sin pitch) (cos pitch)

  observe_aged : Message F → F → F → Feedback F → Feedback F
  unfolding pitch_of
  observe_aged m age now s =
      if refused m age || is_old m.stamp_ns s.pose_stamp_ns
      then record s { pose = none }
      else record {
        pose = some (record { x = m.position.x; y = m.position.z; z = pitch_of m }, sub now age);
        pose_stamp_ns = some m.stamp_ns;
      }

  -- `_observe_pose(message)` at the node's clock `now_ns` and the monotonic time `now`.
  unfoldable pub observe_pose : Message F → ℤ → F → Feedback F → Option (Feedback F)
  unfolding observe_aged age_of
  observe_pose m now_ns now s = age_of now_ns m.stamp_ns >>= λ age. some (observe_aged m age now s)

  -- `fresh_pose(now, max_age)`.
  unfoldable pub fresh_pose : F → F → Feedback F → Option (Vec3 F × F)
  fresh_pose now max_age s = elim s.pose [
    | none ↦ none
    | some (p, at) ↦
        if not (le (lit 0 0) (sub now at) && le (sub now at) max_age) then none else some (p, at)
  ]

  -- A message with the two clocks at its arrival.
  pub record Arrival : Type 0 where
    pub message : Message F
    pub now_ns : ℤ
    pub now : F

  unfoldable pub observe_all : List Arrival → Feedback F → Option (Feedback F)
  observe_all [] s = some s
  observe_all (a ∷ more) s = observe_pose a.message a.now_ns a.now s >>= observe_all more

  observe_pose_grows :
      (stamp : ℤ) (a : Arrival) (s : Feedback F) {t : Feedback F}
      → is_old stamp s.pose_stamp_ns ≡ true
      → observe_pose a.message a.now_ns a.now s ≡ some t
      → is_old stamp t.pose_stamp_ns ≡ true
  unfolding observe_pose
  observe_pose_grows stamp a s h e = ground arith

  observe_all_grows :
      (stamp : ℤ) (arrivals : List Arrival) (s : Feedback F) {t : Feedback F}
      → is_old stamp s.pose_stamp_ns ≡ true
      → observe_all arrivals s ≡ some t
      → is_old stamp t.pose_stamp_ns ≡ true
  unfolding observe_all
  observe_all_grows stamp [] s h e = ground arith
  observe_all_grows stamp (a ∷ more) s h e =
      let (u, e1, e2) =
        >>=-eq-some (observe_pose a.message a.now_ns a.now s) (observe_all more) e in
      observe_all_grows stamp more u (observe_pose_grows stamp a s h e1) e2

  observe_pose_old :
      (m : Message F) (now_ns : ℤ) (now : F) (s : Feedback F) {t : Feedback F}
      → is_old m.stamp_ns s.pose_stamp_ns ≡ true
      → observe_pose m now_ns now s ≡ some t
      → t.pose ≡ none
  unfolding observe_pose
  observe_pose_old m now_ns now s h e = ground arith

  accepted_stamp :
      (a : Arrival) (s : Feedback F) {t : Feedback F} {p : Vec3 F × F}
      → observe_pose a.message a.now_ns a.now s ≡ some t
      → t.pose ≡ some p
      → is_old a.message.stamp_ns t.pose_stamp_ns ≡ true
  unfolding observe_pose
  accepted_stamp a s e h = ground arith

  older : (a b : ℤ) (kept : Option ℤ) → a ≤ℤ b → is_old b kept ≡ true → is_old a kept ≡ true
  older a b none h e = absurd (cc e)
  older a b (some last) h e = ground arith

  -- A pose that was accepted is never accepted again, nor is one with an earlier stamp: such a
  -- message, after any others, leaves no pose.
  pub old_pose_is_dropped :
      (a : Arrival) (arrivals : List Arrival) (again : Arrival) (s t u v : Feedback F)
      {p : Vec3 F × F}
      → observe_pose a.message a.now_ns a.now s ≡ some t
      → t.pose ≡ some p
      → observe_all arrivals t ≡ some u
      → again.message.stamp_ns ≤ℤ a.message.stamp_ns
      → observe_pose again.message again.now_ns again.now u ≡ some v
      → v.pose ≡ none
  old_pose_is_dropped a arrivals again s t u v e1 accepted e2 same e3 =
      let kept =
        observe_all_grows a.message.stamp_ns arrivals t (accepted_stamp a s e1 accepted) e2 in
      observe_pose_old again.message again.now_ns again.now u
        (older again.message.stamp_ns a.message.stamp_ns u.pose_stamp_ns same kept) e3
