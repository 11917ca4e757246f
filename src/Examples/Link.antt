-- ===== src/Examples/Link.antt =====
-- Runs of the link to the controller: the button, the pose and the enabling.
use bxi_car_v.Base.{Bool, true, false, none, some, List, [], ◌∷◌, ◌≡◌, ◌≢◌, ◌⊎◌, refl, arith}
use bxi_car_v.Base.Int.{ℤ, pos, ◌-ℤ◌}
use bxi_car_v.Link.Joystick.{
  Joystick, new, require_release, take_cancel, observe, Event, message, poll, run,
  held_button_is_ignored, release_is_reported,
}
use bxi_car_v.Link.Pose.{Feedback, Arrival, observe_pose, refused, observe_all, old_pose_is_dropped}
use bxi_car_v.Link.Control.{Control, Reply, reply, timed_out, create, set_parameters, stop_message}
use bxi_car_v.Link.Control.Safety.{
  Op, enabling, publishing, disabling, step, run as run_control, IsSafe, created-IsSafe,
  preview_is_silent, disable_outcome,
}
use bxi_car_v.Examples.Micro.{numbers}
use bxi_car_v.Examples.Tracking.{m, vec}

abbrev held : List (Event numbers)
held = message true (m 100000) ∷ poll (m 150000) ∷ message true (m 200000) ∷ poll (m 250000) ∷ []

held_button_is_ignored_example : (run numbers held (require_release new)).request ≡ false
held_button_is_ignored_example =
    held_button_is_ignored numbers held new (refl, (tt, (refl, (tt, tt))))

abbrev pub pressed : Joystick ℤ
pressed = record new { received_at = some (m 0); released = true; request = true }

release_is_reported_example :
    (take_cancel (run numbers held (observe numbers false (m 50000) pressed))).1 ≡ true
release_is_reported_example = release_is_reported numbers (m 50000) held pressed refl

abbrev previewing : Control ℤ
previewing = record {
  execute = false;
  track_x = false;
  goal_mode = false;
  enabled = false;
  enable_requested = false;
  sending = false;
  sent = [];
}

abbrev pub controlling : Control ℤ
controlling = record previewing { execute = true; track_x = true; goal_mode = true }

abbrev ops : List (Op ℤ)
ops =
    enabling true (reply (some false ∷ some false ∷ some false ∷ [])) (reply true)
    ∷ publishing (vec (m 1) (m 2) (m 3))
    ∷ disabling timed_out
    ∷ disabling (reply true)
    ∷ []

created-IsSafe_example : IsSafe (run_control ops controlling)
created-IsSafe_example =
    created-IsSafe true true true true ops {s = controlling} {x = tt} (unfold create in refl)

preview_is_silent_example : (run_control ops previewing).sent ≡ []
preview_is_silent_example = preview_is_silent ops previewing refl

abbrev pub enabled : Control ℤ
enabled = record controlling { enabled = true; enable_requested = true }

disable_outcome_example :
    let t = step (disabling timed_out) enabled in
    (t.sent ≡ set_parameters false false false ∷ stop_message ∷ enabled.sent)
    × (t.sending ≡ false)
    × ((timed_out ≡ reply true) × (t.enabled ≡ false) × (t.enable_requested ≡ false)
        ⊎ (timed_out ≢ reply true)
          × (t.enabled ≡ enabled.enabled)
          × (t.enable_requested ≡ true)
          × ((again : Reply Bool)
              → (step (disabling again) t).sent
                ≡ set_parameters false false false ∷ stop_message ∷ t.sent))
disable_outcome_example = disable_outcome timed_out enabled refl refl

-- A pose at rest, 0.1 s old on arrival.
abbrev pose : Arrival numbers
pose = record {
  message = record {
    frame_id = "arm_shoulder";
    stamp_ns = pos 1000000000;
    position = vec (m 500000) (m 0) (m 400000);
    qx = m 0;
    qy = m 0;
    qz = m 0;
    qw = m 1000000;
  };
  now_ns = pos 1100000000;
  now = m 5000000;
}

abbrev pub received : Feedback ℤ
received = record {
  pose = some (vec (m 500000) (m 400000) (m 0), m 4900000);
  pose_stamp_ns = some (pos 1000000000);
}

accepted :
    observe_pose numbers pose.message pose.now_ns pose.now
      (record { pose = none; pose_stamp_ns = none })
    ≡ some received
unfolding observe_pose refused ◌-ℤ◌
accepted = refl

dropped :
    observe_pose numbers pose.message pose.now_ns pose.now received
    ≡ some (record received { pose = none })
unfolding observe_pose refused ◌-ℤ◌
dropped = refl

kept : observe_all numbers [] received ≡ some received
unfolding observe_all
kept = refl

old_pose_is_dropped_example : (record received { pose = none }).pose ≡ none
old_pose_is_dropped_example =
    old_pose_is_dropped numbers pose [] pose (record { pose = none; pose_stamp_ns = none }) received
      received (record received { pose = none }) accepted refl kept (omega arith) dropped
