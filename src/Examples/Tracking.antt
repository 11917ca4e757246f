-- ===== src/Examples/Tracking.antt =====
-- A tracking session with a camera on the arm: three frames of a still target, where the last gives
-- the target.
use bxi_car_v.Base.{ℕ, ◌≤◌, ◌+◌, inl, true, false, none, some, List, [], ◌∷◌, ◌≡◌, refl, arith}
use bxi_car_v.Base.Int.{ℤ, pos}
use bxi_car_v.Base.Value.{Value, bool, float, str, list, dict, nil, cons, end, field, get, item}
use bxi_car_v.Base.Numeric.{Vec3, number}
use bxi_car_v.Tracking.Config.{Config, tool, array3}
use bxi_car_v.Tracking.Tracker.{depth, tracking, new, Tracker}
use bxi_car_v.Tracking.Session.{Call, call, run, streak, target_needs_streak, IsSound, call-IsSound}
use bxi_car_v.Tracking.Evaluate.{
  evaluate, gates, times, detection_dict, device_stamp, frame_time, position, pose_time, geometry,
  accept,
}
use bxi_car_v.Tracking.Geometry.{transform}
use bxi_car_v.Tracking.Fresh.{IsFresh, target-IsFresh, target_pose}
use bxi_car_v.Tracking.Replay.{no_replay}
use bxi_car_v.Examples.Micro.{numbers, numbers-OrderLaws}

abbrev pub m : ℕ → ℤ
m n = pos n

abbrev pub vec : ℤ → ℤ → ℤ → Vec3 ℤ
vec a b c = record { x = a; y = b; z = c }

-- Frames at most 0.25 s old and two in a row.
abbrev pub config : Config ℤ
config = record {
  camera_mount = tool;
  rotation = record {
    r0 = vec (m 1000000) (m 0) (m 0);
    r1 = vec (m 0) (m 1000000) (m 0);
    r2 = vec (m 0) (m 0) (m 1000000);
  };
  translation_m = vec (m 0) (m 0) (m 0);
  offset_below_m = m 100000;
  min_valid_frames = 3;
  max_frame_age_s = m 250000;
  max_pose_age_s = m 250000;
  max_target_jump_m = m 30000;
  approach_standoff_m = m 0;
}

abbrev pub three : ℤ → ℤ → ℤ → Value ℤ
three a b c = list (cons (float a) (cons (float b) (cons (float c) nil)))

abbrev pub still : ℕ → Value ℤ
still stamp = dict (
    field "valid" (bool true) (
      field "device_timestamp_ms" (float (m stamp)) (
        field "position_3d"
          (dict (
            field "valid" (bool true) (
              field "frame_id" (str "gemini_color_optical_frame")
                (field "midpoint_m" (three (m 300000) (m 0) (m 600000)) end))))
          end)))

abbrev pub arm : Value ℤ
arm = three (m 500000) (m 400000) (m 0)

-- The frame with a stamp, received and evaluated at a time.
abbrev frame : ℕ → ℕ → Call ℤ
frame stamp time = record {
  detection = still stamp;
  now = float (m time);
  received = float (m time);
  pose = arm;
  pose_at = float (m time);
}

abbrev first_two : List (Call ℤ)
first_two = frame 100 1000000 ∷ frame 200 1100000 ∷ []

abbrev third : Call ℤ
third = frame 300 1200000

third_target :
    (call numbers config depth third (run numbers config depth first_two new []).0).1.target_m
    ≡ some (vec (m 800000) (m 0) (m 900000))
unfolding call run evaluate gates times number detection_dict device_stamp get item frame_time
    position pose_time geometry transform array3 accept
third_target = refl

abbrev before_third : Tracker ℤ
before_third = (run numbers config depth first_two new []).0

target_needs_streak_example :
    ((call numbers config depth third before_third).1.reason ≡ tracking)
    × (3 ≤ 1 + streak (run numbers config depth first_two new []).1)
target_needs_streak_example =
    target_needs_streak numbers config depth first_two third (vec (m 800000) (m 0) (m 900000))
      third_target

target-IsFresh_example : IsFresh numbers config depth third before_third
target-IsFresh_example = target-IsFresh numbers config depth third before_third third_target

target_pose_example :
    (now : ℤ) × (at : ℤ) × (number numbers third.now ≡ some now)
    × (number numbers third.pose_at ≡ some at)
    × (numbers.lt now at ≡ false)
    × (numbers.lt config.max_pose_age_s (numbers.sub now at) ≡ false)
target_pose_example = target_pose numbers config depth third before_third refl third_target

no_replay_example :
    (call numbers config depth third
      (run numbers config depth
        (frame 400 1300000 ∷ [])
        (call numbers config depth third before_third).0
        []).0).1.target_m
    ≡ none
no_replay_example =
    no_replay numbers numbers-OrderLaws config depth third before_third third_target
      (frame 400 1300000 ∷ []) [] third refl

new-IsSound : IsSound config (new {F = ℤ})
new-IsSound = record { bounded = omega arith; counted = inl (refl, refl) }

call-IsSound_example : IsSound config (call numbers config depth third new).0
call-IsSound_example = call-IsSound numbers config depth (omega arith) third new new-IsSound
