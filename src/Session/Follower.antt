-- ===== src/Session/Follower.antt =====
-- The two trackers of `make_tracker` in arm_tracking.py, as what the session loop calls.
use bxi_car_v.Base.{Bool, true, false, Option, none, some, ◌≡◌, refl, arith}
use bxi_car_v.Base.Value.{Value, float, null, list, nil, cons}
use bxi_car_v.Base.Numeric.{Numeric, Vec3}
use bxi_car_v.Tracking.Config.{Config}
use bxi_car_v.Tracking.Tracker.{Mode, Tracker, Result, arm_feedback_missing_or_stale}
use bxi_car_v.Tracking.Tracker as Tracker
use bxi_car_v.Tracking.Evaluate.{evaluate}
use bxi_car_v.Approach.{Approach, Report, CommandKind, start, evaluate_approach}
use bxi_car_v.Approach as Approach
use bxi_car_v.Session.{Outcome, Tracked, TrackedLaws}

module _ (n : Numeric) (cfg : Config n.F) where
  open n use {F}

  -- The pair that `fresh_pose` returns, as the two arguments of `evaluate`.
  pose_value : Option (Vec3 F × F) → Value F
  pose_value none = null
  pose_value (some (p, at)) = list (cons (float p.x) (cons (float p.y) (cons (float p.z) nil)))

  time_value : Option (Vec3 F × F) → Value F
  time_value none = null
  time_value (some (p, at)) = float at

  of_result : Tracker F × Result F → Tracker F × Outcome F
  of_result (s, r) = (s, record { target_m = r.target_m; is_goal = false })

  -- `ArmTracker(config, mode=mode)`
  unfoldable pub arm_tracker : Mode → Tracked F
  unfolding pose_value time_value of_result
  arm_tracker mode = record {
    State = Tracker F;
    make = λ after. Tracker.new;
    evaluate = λ detection now received pose s. of_result (
        evaluate n cfg mode detection (float now) (float received) (pose_value pose)
          (time_value pose) s);
    invalidate = λ s. of_result (Tracker.invalidate s arm_feedback_missing_or_stale);
  }

  is_goal_kind : Option CommandKind → Bool
  is_goal_kind (some CommandKind.goal) = true
  is_goal_kind _ = false

  of_report : Option F → Approach F × Report F → (Option F × Approach F) × Outcome F
  unfolding is_goal_kind
  of_report after (s, r) =
      ((after, s), record { target_m = r.target_m; is_goal = is_goal_kind r.command_kind })

  -- `ArmApproach(config, capture_after=after)`, with the time it captures after in its state.
  unfoldable pub arm_approach : Tracked F
  unfolding pose_value time_value of_report
  arm_approach = record {
    State = Option F × Approach F;
    make = λ after. (after, start);
    evaluate = λ detection now received pose s. of_report s.0 (
        evaluate_approach n cfg s.0 detection (float now) (float received) (pose_value pose)
          (time_value pose) s.1);
    invalidate = λ s. of_report s.0 (Approach.invalidate s.1 arm_feedback_missing_or_stale);
  }

  pub arm_tracker-TrackedLaws : (mode : Mode) → TrackedLaws (arm_tracker mode)
  unfolding arm_tracker of_result Tracker.invalidate
  arm_tracker-TrackedLaws mode = record { invalidate_none = λ s. refl }

  approach_none :
      (after : Option F) (s : Approach F)
      → (of_report after (Approach.invalidate s arm_feedback_missing_or_stale)).1.target_m ≡ none
  unfolding of_report Approach.invalidate
  approach_none after s = ground arith

  pub arm_approach-TrackedLaws : TrackedLaws arm_approach
  unfolding arm_approach
  arm_approach-TrackedLaws = record { invalidate_none = λ s. approach_none s.0 s.1 }
