-- ===== src/Tracking/Evaluate.antt =====
-- `ArmTracker.__init__` and `evaluate` of arm_tracking.py, in the order of the source.
use bxi_car_v.Base.{
  ℕ, ◌+◌, Bool, true, false, not, ◌&&◌, ◌||◌, Option, none, some, [], ◌∷◌, ltb, is_none,
  if◌then◌else◌,
}
use bxi_car_v.Base.Maybe
use bxi_car_v.Base.Gate.{Gate, reject, pass, ◌>>=◌}
use bxi_car_v.Base.Value.{Value, is_null, Fields, end, as_dict, is_true, is_str, get}
use bxi_car_v.Base.Numeric.{Numeric, Vec3, number}
use bxi_car_v.Tracking.Config.{Mount, fixed, tool, Config, array3, validate_config}
use bxi_car_v.Tracking.Geometry.{
  Vec2, PixelDetails, Framing, transform, pixel_target, depth_correction,
}
use bxi_car_v.Tracking.Tracker.{
  Mode, depth, is_depth, is_pixel, Reason, invalid_time, invalid_detection, invalid_frame_timestamp,
  duplicate_or_out_of_order_frame, future_frame, stale_frame, out_of_order_frame_time,
  wrong_camera_frame, missing_arm_pose, invalid_pose_time, stale_arm_pose, pixel_camera_not_upright,
  invalid_geometry, target_jump, acquiring, tracking, Tracker, Result, new, no_details, result_of,
  cleared, invalidate,
}

-- The target of an accepted frame, with what the next frame is compared with.
pub data Aim (F : Type 0) : Type 0 where
  depth_aim : Vec3 F → Aim F
  pixel_aim : Vec3 F → Vec2 F → Vec2 F → Aim F
  pixel_depth_aim : Vec3 F → Vec2 F → Vec2 F → F → Aim F

abbrev pub target_of : {F : Type 0} → Aim F → Vec3 F
target_of (depth_aim t) = t
target_of (pixel_aim t p size) = t
target_of (pixel_depth_aim t p size d) = t

module _ (n : Numeric) where
  open n use {F, lt, le, eq, lit, sub, add, neg, abs, norm}

  -- `__init__`; `none` is its ValueError.
  unfoldable pub create : Value F → Mode → Option (Config F × Tracker F)
  create config mode = Maybe.◌>>=◌ (validate_config n config) (λ cfg.
      if not (is_depth mode)
        && (not (elim cfg.camera_mount [ fixed ↦ false | tool ↦ true ])
            || (lt cfg.rotation.r0.z (lit 95 2) || lt (neg cfg.rotation.r2.y) (lit 95 2)))
      then none
      else some (cfg, new))

  -- a time that lies before the one kept, or not after it
  abbrev pub before : F → Option F → Bool
  before t none = false
  before t (some last) = lt t last

  abbrev pub not_after : F → Option F → Bool
  not_after t none = false
  not_after t (some last) = le t last

  read_times : Option F → Option F → Tracker F → Gate Reason (Tracker F) (F × F)
  read_times (some now) (some received) s =
      if (lt now (lit 0 0) || lt received (lit 0 0)) || before now s.last_now
      then reject invalid_time s
      else pass (now, received) (record s { last_now = some now })
  read_times _ _ s = reject invalid_time s

  unfoldable pub times : Value F → Value F → Tracker F → Gate Reason (Tracker F) (F × F)
  unfolding read_times
  times now received = read_times (number n now) (number n received)

  unfoldable pub detection_dict : Value F → Tracker F → Gate Reason (Tracker F) (Fields F)
  detection_dict v s = elim (as_dict v) [ none ↦ reject invalid_detection s | some d ↦ pass d s ]

  unfoldable pub stamp_order : Option F → Tracker F → Gate Reason (Tracker F) F
  stamp_order none s = reject invalid_frame_timestamp s
  stamp_order (some stamp) s =
      if lt stamp (lit 0 0)
      then reject invalid_frame_timestamp s
      else if not_after stamp s.last_device_timestamp
      then reject duplicate_or_out_of_order_frame s
      else pass stamp (record s { last_device_timestamp = some stamp })

  unfoldable pub device_stamp : Fields F → Tracker F → Gate Reason (Tracker F) F
  unfolding stamp_order
  device_stamp d = stamp_order (number n (get "device_timestamp_ms" d))

  module _ (cfg : Config F) where
    -- A gap clears the acquisition and goes on.
    frame_order : F → Option F → Tracker F → Gate Reason (Tracker F) (Unit {0})
    frame_order received none s = pass tt (record s { last_frame_received_at = some received })
    frame_order received (some last) s =
        if le received last
        then reject out_of_order_frame_time s
        else if lt cfg.max_frame_age_s (sub received last)
        then pass tt (record (cleared s) { last_frame_received_at = some received })
        else pass tt (record s { last_frame_received_at = some received })

    unfoldable pub frame_time : F → F → Tracker F → Gate Reason (Tracker F) (Unit {0})
    unfolding frame_order cleared
    frame_time now received s =
        if lt now received
        then reject future_frame s
        else if lt cfg.max_frame_age_s (sub now received)
        then reject stale_frame s
        else frame_order received s.last_frame_received_at s

    position_dict : Option (Fields F) → Tracker F → Gate Reason (Tracker F) (Fields F)
    position_dict none s = reject invalid_detection s
    position_dict (some p) s =
        if not (is_true (get "valid" p))
        then reject invalid_detection s
        else if not (is_str "gemini_color_optical_frame" (get "frame_id" p))
        then reject wrong_camera_frame s
        else pass p s

    -- In pixel mode there is no position, and none is read.
    unfoldable pub position : Mode → Fields F → Tracker F → Gate Reason (Tracker F) (Fields F)
    unfolding position_dict
    position mode d s =
        if not (is_true (get "valid" d))
        then reject invalid_detection s
        else if is_pixel mode
        then pass end s
        else position_dict (as_dict (get "position_3d" d)) s

    pose_age : F → Option F → Tracker F → Gate Reason (Tracker F) (Unit {0})
    pose_age now none s = reject invalid_pose_time s
    pose_age now (some received) s =
        if lt received (lit 0 0) || lt now received
        then reject invalid_pose_time s
        else if lt cfg.max_pose_age_s (sub now received)
        then reject stale_arm_pose s
        else pass tt s

    tool_pose : Mount → F → Value F → Value F → Tracker F → Gate Reason (Tracker F) (Unit {0})
    unfolding pose_age
    tool_pose fixed now pose received s = pass tt s
    tool_pose tool now pose received s =
        if is_null pose || is_null received
        then reject missing_arm_pose s
        else pose_age now (number n received) s

    unfoldable pub pose_time :
        F → Value F → Value F → Tracker F → Gate Reason (Tracker F) (Unit {0})
    unfolding tool_pose
    pose_time = tool_pose cfg.camera_mount

    -- The depth part of a pixel-depth target.
    with_depth :
        Vec3 F
        → PixelDetails F
        → Vec2 F
        → Vec2 F
        → Fields F
        → Value F
        → Tracker F
        → Gate Reason (Tracker F) (Aim F)
    with_depth t details p size position pose s = elim (array3 n (get "midpoint_m" position)) [
      | none ↦ reject invalid_geometry s
      | some m ↦
          if le m.z (lit 0 0)
          then reject invalid_geometry s
          else elim (depth_correction n cfg s.reference_depth_m m.z pose) [
            | none ↦ reject invalid_geometry s
            | some c ↦
                pass (pixel_depth_aim (record t { x = add t.x c.x_correction_m }) p size m.z)
                  (record s { details = record { framing = some details; depth = some c } })
          ]
    ]

    framed :
        Mode → Option (Framing F) → Fields F → Value F → Tracker F → Gate Reason (Tracker F) (Aim F)
    unfolding with_depth
    framed mode none position pose s = reject invalid_geometry s
    framed mode (some f) position pose s = elim f.target [
      | none ↦ reject pixel_camera_not_upright s
      | some (t, details) ↦
          if is_pixel mode
          then pass (pixel_aim t f.midpoint f.size)
              (record s { details = record { framing = some details; depth = none } })
          else with_depth t details f.midpoint f.size position pose s
    ]

    unfoldable pub geometry :
        Mode → Fields F → Fields F → Value F → Tracker F → Gate Reason (Tracker F) (Aim F)
    unfolding framed
    geometry depth d position pose s = elim (transform n cfg (get "midpoint_m" position) pose) [
      | none ↦ reject invalid_geometry s
      | some t ↦ pass (depth_aim t) s
    ]
    geometry mode d position pose s = framed mode (pixel_target n cfg d pose) position pose s

    unfoldable pub gates :
        Mode
        → Value F
        → Value F
        → Value F
        → Value F
        → Value F
        → Tracker F
        → Gate Reason (Tracker F) (Aim F)
    gates mode detection now_v received_v pose pose_at = do
      (now, received) ← times now_v received_v
      d ← detection_dict detection
      stamp ← device_stamp d
      timed ← frame_time now received
      p ← position mode d
      posed ← pose_time now pose pose_at
      geometry mode d p pose

    -- `np.linalg.norm(target - candidate) > max_target_jump_m`, if there is a candidate
    moved : Vec3 F → Option (Vec3 F) → Bool
    moved t none = false
    moved t (some c) =
        lt cfg.max_target_jump_m (norm (sub t.x c.x ∷ sub t.y c.y ∷ sub t.z c.z ∷ []))

    same_size : Vec2 F → Option (Vec2 F) → Bool
    same_size a none = false
    same_size a (some b) = eq a.u b.u && eq a.v b.v

    shifted : Vec2 F → Vec2 F → Option (Vec2 F) → Option (Vec2 F) → Bool
    unfolding same_size
    shifted p size none old_size = false
    shifted p size (some q) old_size =
        not (same_size size old_size) || lt (lit 80 0) (norm (sub p.u q.u ∷ sub p.v q.v ∷ []))

    deeper : F → Option F → Bool
    deeper d none = false
    deeper d (some c) = lt cfg.max_target_jump_m (abs (sub d c))

    unfoldable pub jumped : Aim F → Tracker F → Bool
    unfolding moved shifted deeper
    jumped (depth_aim t) s = moved t s.candidate
    jumped (pixel_aim t p size) s =
        moved t s.candidate || shifted p size s.candidate_pixel s.candidate_image_size
    jumped (pixel_depth_aim t p size d) s =
        (moved t s.candidate || shifted p size s.candidate_pixel s.candidate_image_size)
        || deeper d s.candidate_depth

    remember : Aim F → Tracker F → Tracker F
    remember (depth_aim t) s = record s { candidate = some t }
    remember (pixel_aim t p size) s = record s {
      candidate = some t;
      candidate_pixel = some p;
      candidate_image_size = some size;
    }
    remember (pixel_depth_aim t p size d) s = record s {
      candidate = some t;
      candidate_pixel = some p;
      candidate_image_size = some size;
      candidate_depth = some d;
    }

    -- The first tracked frame of a session fixes the depth to hold, also in the details.
    keep_reference : Aim F → Tracker F → Tracker F
    keep_reference (pixel_depth_aim t p size d) s =
        if is_none s.reference_depth_m
        then record s {
          reference_depth_m = some d;
          details = record s.details {
            depth = elim s.details.depth [
              | none ↦ none
              | some c ↦ some (record c { depth_reference_m = some d })
            ];
          };
        }
        else s
    keep_reference aim s = s

    next_count : Bool → Option (Vec3 F) → ℕ → ℕ
    next_count jump none count = 1
    next_count true (some c) count = 1
    next_count false (some c) count =
        if ltb cfg.min_valid_frames (count + 1) then cfg.min_valid_frames else count + 1

    -- The tail of `evaluate`, from a target on.
    settle : Bool → Aim F → Tracker F → Tracker F × Result F
    unfolding keep_reference
    settle jump aim s =
        if jump
        then (s, result_of s target_jump none)
        else if ltb s.count cfg.min_valid_frames
        then (s, result_of s acquiring none)
        else (
          keep_reference aim s,
          result_of (keep_reference aim s) tracking (some (target_of aim)),
        )

    unfoldable pub accept : Aim F → Tracker F → Tracker F × Result F
    unfolding remember next_count settle jumped
    accept aim s =
        settle (jumped aim s) aim
          (record (remember aim s) { count = next_count (jumped aim s) s.candidate s.count })

    unfoldable pub conclude : Gate Reason (Tracker F) (Aim F) → Tracker F × Result F
    conclude (reject why s) = invalidate s why
    conclude (pass aim s) = accept aim s

    unfoldable pub evaluate :
        Mode → Value F → Value F → Value F → Value F → Value F → Tracker F → Tracker F × Result F
    unfolding conclude
    evaluate mode detection now received pose pose_at s =
        conclude
          (gates mode detection now received pose pose_at (record s { details = no_details }))
