-- ===== src/Tracking/Tracker.antt =====
-- `class ArmTracker` of arm_tracking.py. `evaluate` is cut where the source returns early: each part
-- either hands on a value with the new state, or rejects, and then `evaluate` invalidates.
use bxi_car_v.Base.{ℕ, Bool, true, false, Option, none}
use bxi_car_v.Base.Numeric.{Vec3}
use bxi_car_v.Tracking.Geometry.{Vec2, PixelDetails, DepthDetails}

pub data Mode : Type 0 where
  pixel pixel_depth depth : Mode

abbrev pub is_depth : Mode → Bool
is_depth depth = true
is_depth _ = false

abbrev pub is_pixel : Mode → Bool
is_pixel pixel = true
is_pixel _ = false

abbrev pub is_pixel_depth : Mode → Bool
is_pixel_depth pixel_depth = true
is_pixel_depth _ = false

-- The reasons of the results, those of `ArmApproach` and of the session included.
pub data Reason : Type 0 where
  invalid_time invalid_detection invalid_frame_timestamp : Reason
  duplicate_or_out_of_order_frame future_frame stale_frame : Reason
  out_of_order_frame_time frame_gap wrong_camera_frame : Reason
  missing_arm_pose invalid_pose_time stale_arm_pose : Reason
  pixel_camera_not_upright invalid_geometry : Reason
  target_jump acquiring tracking : Reason
  out_of_order_pose_time invalid_arm_pose pre_enable_frame : Reason
  aligning settling approaching goal_reached : Reason
  arm_feedback_missing_or_stale : Reason

-- `_pixel_details`: empty, or the entries of one method or of two.
pub record Details (F : Type 0) : Type 0 where
  pub framing : Option (PixelDetails F)
  pub depth : Option (DepthDetails F)

abbrev pub no_details : {F : Type 0} → Details F
no_details = record { framing = none; depth = none }

pub record Tracker (F : Type 0) : Type 0 where
  pub candidate : Option (Vec3 F)
  pub candidate_pixel : Option (Vec2 F)
  pub candidate_image_size : Option (Vec2 F)
  pub candidate_depth : Option F
  pub reference_depth_m : Option F
  pub details : Details F
  pub count : ℕ
  pub last_now : Option F
  pub last_device_timestamp : Option F
  pub last_frame_received_at : Option F

-- `valid` of the source's dict is that there is a target; the two fixed entries are left out.
pub record Result (F : Type 0) : Type 0 where
  pub reason : Reason
  pub target_m : Option (Vec3 F)
  pub consecutive_valid_frames : ℕ
  pub pixel_details : Details F

-- The fields of `__init__`.
abbrev pub new : {F : Type 0} → Tracker F
new = record {
  candidate = none;
  candidate_pixel = none;
  candidate_image_size = none;
  candidate_depth = none;
  reference_depth_m = none;
  details = no_details;
  count = 0;
  last_now = none;
  last_device_timestamp = none;
  last_frame_received_at = none;
}

abbrev pub result_of : {F : Type 0} → Tracker F → Reason → Option (Vec3 F) → Result F
result_of s why target = record {
  reason = why;
  target_m = target;
  consecutive_valid_frames = s.count;
  pixel_details = s.details;
}

-- The fields that `invalidate` resets.
unfoldable pub cleared : {F : Type 0} → Tracker F → Tracker F
cleared s = record s {
  candidate = none;
  candidate_pixel = none;
  candidate_image_size = none;
  candidate_depth = none;
  details = no_details;
  count = 0;
}

unfoldable pub invalidate : {F : Type 0} → Tracker F → Reason → Tracker F × Result F
unfolding cleared
invalidate s why = (cleared s, result_of (cleared s) why none)
