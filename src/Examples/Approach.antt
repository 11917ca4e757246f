-- ===== src/Examples/Approach.antt =====
-- An approach session that is settling, and the frame that captures the goal.
use bxi_car_v.Base.{ℕ, none, some, List, [], ◌∷◌, map, All, ◌≡◌, refl, sym, ap, subst}
use bxi_car_v.Base.Int.{ℤ}
use bxi_car_v.Base.Value.{float, null, all_items, get, item}
use bxi_car_v.Base.Numeric.{number}
use bxi_car_v.Tracking.Tracker.{stale_arm_pose, new}
use bxi_car_v.Approach.{Phase, Goal, Approach, start, report, evaluate_approach}
use bxi_car_v.Approach.{stages, pose_time, pose_read, pursue, approach, follow, settle_or_capture}
use bxi_car_v.Approach.Calls.{Call, evaluated, invalidated, call, run}
use bxi_car_v.Approach.Terminal.{
  IsConsistent, Obeys, session-IsConsistent, terminal_absorbs, goal_is_final,
}
use bxi_car_v.Approach.Capture.{Captures, zero_since, capture_conditions, lost_feedback_is_final}
use bxi_car_v.Tracking.Config.{array3}
use bxi_car_v.Tracking.Geometry.{transform}
use bxi_car_v.Tracking.Evaluate as Evaluate
use bxi_car_v.Tracking.Evaluate.{
  evaluate, gates, times, detection_dict, device_stamp, frame_time, position, accept, geometry,
}
use bxi_car_v.Examples.Micro.{numbers}
use bxi_car_v.Examples.Tracking.{m, vec, config, still, arm}

abbrev frame : ℕ → ℕ → Call ℤ
frame stamp time = evaluated (still stamp) (float (m time)) (float (m time)) arm (float (m time))

abbrev frames : List (Call ℤ)
frames =
    frame 100 1000000
    ∷ frame 200 1100000
    ∷ frame 300 1200000
    ∷ frame 400 1400000
    ∷ frame 500 1600000
    ∷ invalidated stale_arm_pose
    ∷ []

session-IsConsistent_example : IsConsistent (run numbers config none frames start).0
session-IsConsistent_example = session-IsConsistent numbers config none frames

abbrev a_goal : Goal ℤ
a_goal = record {
  point = vec (m 800000) (m 0) (m 900000);
  pitch = m 0;
  capture_timestamp_ms = some (m 500);
  capture_received_at = m 1600000;
}

abbrev moving : Approach ℤ
moving = record start { phase = Phase.approaching; goal = some a_goal }

abbrev stopped : Approach ℤ
stopped = record moving { phase = Phase.cancelled; terminal_reason = some stale_arm_pose }

goal_is_final_example :
    ((run numbers config none frames moving).0.goal ≡ some a_goal)
    × All (Obeys a_goal) (run numbers config none frames moving).1
goal_is_final_example = goal_is_final numbers config none a_goal frames moving refl

terminal_absorbs_example :
    run numbers config none frames stopped
    ≡ (stopped, map (λ c. report stopped stale_arm_pose none none) frames)
terminal_absorbs_example = terminal_absorbs numbers config none stale_arm_pose frames stopped refl

lost_feedback_is_final_example :
    All
      (λ r. r.target_m ≡ none)
      (run numbers config none frames
        (call numbers config none
          (evaluated (still 600) (float (m 1700000)) (float (m 1700000)) null (float (m 1700000)))
          moving).0).1
lost_feedback_is_final_example =
    lost_feedback_is_final numbers config none a_goal (still 600) (float (m 1700000))
      (float (m 1700000)) (float (m 1700000)) frames moving refl

abbrev settling_frames : List (Call ℤ)
settling_frames = frame 100 1000000 ∷ frame 200 1100000 ∷ frame 300 1200000 ∷ frame 400 1400000 ∷ []

-- The state that waits for the settling time, the first three frames having been accepted.
abbrev settled : Approach ℤ
settled = record start {
  tracker = record new {
    candidate = some (vec (m 800000) (m 0) (m 900000));
    count = 3;
    last_now = some (m 1400000);
    last_device_timestamp = some (m 400);
    last_frame_received_at = some (m 1400000);
  };
  phase = Phase.settling;
  settle_started_at = some (m 1200000);
  last_now = some (m 1400000);
  last_pose_received_at = some (m 1400000);
  count = 3;
}

is_settled : (run numbers config none settling_frames start).0 ≡ settled
unfolding call run evaluate_approach stages number pose_time pose_read array3 all_items pursue
    evaluate gates times detection_dict device_stamp get item frame_time position approach follow
    accept geometry transform Evaluate.pose_time settle_or_capture
is_settled = refl

captures :
    (evaluate_approach numbers config none
      (still 500)
      (float (m 1600000))
      (float (m 1600000))
      arm
      (float (m 1600000))
      settled).0.goal
    ≡ some a_goal
unfolding evaluate_approach stages number pose_time pose_read array3 all_items pursue evaluate gates
    times detection_dict device_stamp get item frame_time position approach follow accept geometry
    transform Evaluate.pose_time settle_or_capture
captures = refl

capture_conditions_example :
    Captures numbers config none
      (float (m 1600000))
      (float (m 1600000))
      (zero_since numbers config none settling_frames
        (run numbers config none settling_frames start).1
        none)
      a_goal
capture_conditions_example =
    capture_conditions numbers config none settling_frames (still 500) (float (m 1600000))
      (float (m 1600000)) arm (float (m 1600000)) a_goal (ap (λ s. s.goal) is_settled)
      (subst
        (λ s.
          (evaluate_approach numbers config none (still 500) (float (m 1600000)) (float (m 1600000))
            arm (float (m 1600000)) s).0.goal
          ≡ some a_goal)
        (sym is_settled) captures)
