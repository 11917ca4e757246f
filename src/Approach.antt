-- ===== src/Approach.antt =====
-- `class ArmApproach` of car2/src/thirdparty/vision/arm_approach.py: align the chassis, capture one
-- goal, then finish from arm feedback. A call of `evaluate` that returns early by `invalidate` is
-- the rejection of an action; every other return is its value.
pub mod Calls
pub mod Terminal
pub mod Capture
use bxi_car_v.Base.{
  ℕ, Bool, true, false, not, ◌&&◌, ◌||◌, Option, none, some, is_none, if◌then◌else◌,
}
use bxi_car_v.Base.Gate.{Gate, reject, pass, ◌>>=◌}
use bxi_car_v.Base.Value.{
  Value, Items, nil, cons, list, float, is_null, as_dict, as_list, all_items, get,
}
use bxi_car_v.Base.Numeric.{Numeric, Vec3, number, max_of}
use bxi_car_v.Tracking.Config.{Config, array3, validate_config}
use bxi_car_v.Tracking.Tracker
use bxi_car_v.Tracking.Tracker.{
  depth, Reason, invalid_time, missing_arm_pose, invalid_pose_time, stale_arm_pose, Tracker,
  out_of_order_pose_time, invalid_arm_pose, pre_enable_frame, goal_reached,
}
use bxi_car_v.Tracking.Evaluate.{evaluate, before, not_after}
use bxi_car_v.Base.Maybe

pub data Phase : Type 0 where
  aligning settling approaching complete cancelled : Phase

pub data CommandKind : Type 0 where
  live goal : CommandKind

-- The four attributes that are assigned together at the capture.
pub record Goal (F : Type 0) : Type 0 where
  pub point : Vec3 F
  pub pitch : F
  pub capture_timestamp_ms : Option F
  pub capture_received_at : F

pub record Approach (F : Type 0) : Type 0 where
  pub tracker : Tracker F
  pub phase : Phase
  pub settle_started_at : Option F
  pub last_now : Option F
  pub last_pose_received_at : Option F
  pub count : ℕ
  pub goal : Option (Goal F)
  pub terminal_reason : Option Reason

pub record Report (F : Type 0) : Type 0 where
  pub reason : Reason
  pub target_m : Option (Vec3 F)
  pub consecutive_valid_frames : ℕ
  pub phase : Phase
  pub command_kind : Option CommandKind
  pub goal : Option (Goal F)

-- The fields of `__init__`; `capture_after` is an argument of `evaluate`, `none` being -inf.
abbrev pub start : {F : Type 0} → Approach F
start = record {
  tracker = Tracker.new;
  phase = Phase.aligning;
  settle_started_at = none;
  last_now = none;
  last_pose_received_at = none;
  count = 0;
  goal = none;
  terminal_reason = none;
}

abbrev pub report :
    {F : Type 0} → Approach F → Reason → Option (Vec3 F) → Option CommandKind → Report F
report s why target kind = record {
  reason = why;
  target_m = target;
  consecutive_valid_frames = s.count;
  phase = s.phase;
  command_kind = kind;
  goal = s.goal;
}

-- The fields that `invalidate` assigns where no reason is terminal yet.
dropped : {F : Type 0} → Approach F → Reason → Approach F
dropped s why = record s {
  tracker = (Tracker.invalidate s.tracker why).0;
  count = 0;
  settle_started_at = none;
  phase = elim s.goal [ none ↦ Phase.aligning | some g ↦ cancelled ];
  terminal_reason = elim s.goal [ none ↦ none | some g ↦ some why ];
}

unfoldable pub invalidate : {F : Type 0} → Approach F → Reason → Approach F × Report F
unfolding dropped
invalidate s why = elim s.terminal_reason [
  | some r ↦ (s, report s r none none)
  | none ↦ (dropped s why, report (dropped s why) why none none)
]

module _ (n : Numeric) where
  open n use {F, lt, le, lit, sub, add, mul, abs, hypot, remainder, pi}

  -- `__init__`; `none` is its ValueError. The value of `capture_after` is given unless it is -inf.
  unfoldable pub create : Value F → Option (Value F) → Option (Config F × Option F × Approach F)
  create config none = Maybe.◌>>=◌ (validate_config n config) (λ cfg. some (cfg, none, start))
  create config (some v) = Maybe.◌>>=◌ (validate_config n config) (λ cfg.
      Maybe.◌>>=◌ (number n v)
        (λ after. if lt after (lit 0 0) then none else some (cfg, some after, start)))

  module _ (cfg : Config F) where
    unfoldable pub read_now : Option F → Approach F → Gate Reason (Approach F) F
    read_now none s = reject invalid_time s
    read_now (some now) s =
        if lt now (lit 0 0) || before n now s.last_now
        then reject invalid_time s
        else pass now (record s { last_now = some now })

    pose_order : F → Option F → Approach F → Gate Reason (Approach F) F
    pose_order now none s = reject invalid_pose_time s
    pose_order now (some received) s =
        if lt received (lit 0 0) || lt now received
        then reject invalid_pose_time s
        else if before n received s.last_pose_received_at
        then reject out_of_order_pose_time s
        else if lt cfg.max_pose_age_s (sub now received)
        then reject stale_arm_pose s
        else pass received s

    unfoldable pub pose_time : F → Value F → Value F → Approach F → Gate Reason (Approach F) F
    unfolding pose_order
    pose_time now pose pose_at s =
        if is_null pose || is_null pose_at
        then reject missing_arm_pose s
        else pose_order now (number n pose_at) s

    -- `for coordinate in arm_pose: _number(coordinate, ...)`
    numbers : Value F → Bool
    numbers v = elim (as_list v) [
      | none ↦ false
      | some xs ↦ all_items (λ x. not (is_none (number n x))) xs
    ]

    unfoldable pub pose_read : Value F → F → Approach F → Gate Reason (Approach F) (Vec3 F)
    unfolding numbers
    pose_read pose received s = elim (array3 n pose) [
      | none ↦ reject invalid_arm_pose s
      | some p ↦
          if numbers pose
          then pass p (record s { last_pose_received_at = some received })
          else reject invalid_arm_pose s
    ]

    -- Both tolerances; a pose is [x, z, pitch].
    reached : Goal F → Vec3 F → Bool
    reached g p =
        le (hypot (sub g.point.x p.x) (sub g.point.z p.y)) (add (lit 2 3) (lit 1 12))
        && le (abs (remainder (sub p.z g.pitch) (mul (lit 2 0) pi))) (add (lit 1 2) (lit 1 12))

    -- `_approach`
    unfoldable pub approach : Goal F → Vec3 F → Approach F → Approach F × Report F
    unfolding reached
    approach g p s =
        let done = record s { phase = complete; terminal_reason = some goal_reached } in
        let moving = record s { phase = Phase.approaching } in
        if reached g p
        then (done, report done goal_reached none none)
        else (moving, report moving Reason.approaching (some g.point) (some CommandKind.goal))

    realign : Approach F → Approach F
    realign s = record s { settle_started_at = none; phase = Phase.aligning }

    -- The forward clearance, where a close target must not request a retreat.
    goal_x : Vec3 F → F → F
    goal_x p x =
        if lt (lit 0 0) cfg.approach_standoff_m
        then max_of n p.x (sub x cfg.approach_standoff_m)
        else x

    stamp_of : Value F → Option F
    stamp_of detection =
        Maybe.◌>>=◌ (as_dict detection) (λ d. number n (get "device_timestamp_ms" d))

    captured : Value F → F → Vec3 F → Vec3 F → Goal F
    unfolding goal_x stamp_of
    captured detection received p t = record {
      point = record { x = goal_x p t.x; y = lit 0 0; z = t.z };
      pitch = p.z;
      capture_timestamp_ms = stamp_of detection;
      capture_received_at = received;
    }

    -- From a centred target on: settle, then capture. `started` is when zero Y was first commanded.
    unfoldable pub settle_or_capture :
        Value F → F → F → Vec3 F → Vec3 F → Approach F → Approach F × Report F
    unfolding captured approach
    settle_or_capture detection started received p t s =
        let waiting = record s { phase = Phase.settling; settle_started_at = some started } in
        let g = captured detection received p t in
        if le received (add started (lit 3 1))
        then (
          waiting,
          report waiting Reason.settling (some (record { x = p.x; y = lit 0 0; z = p.y }))
              (some live),
        )
        else approach g p (record waiting { goal = some g })

    -- What follows the tracker's result.
    unfoldable pub follow :
        Value F → F → F → Vec3 F → Tracker.Result F → Approach F → Approach F × Report F
    unfolding realign settle_or_capture
    follow detection now received p r s = elim r.target_m [
      | none ↦ (realign s, report (realign s) r.reason none none)
      | some t ↦
          if lt (lit 2 3) (abs t.y)
          then (
            realign s,
            report (realign s) Reason.aligning (some (record { x = p.x; y = t.y; z = p.y }))
                (some live),
          )
          else settle_or_capture detection
              (elim s.settle_started_at [ none ↦ now | some started ↦ started ]) received p t s
    ]

    -- The measured pose as it is handed to the tracker.
    pose_value : Vec3 F → Value F
    pose_value p = list (cons (float p.x) (cons (float p.y) (cons (float p.z) nil)))

    track : Value F → F → F → Vec3 F → F → Approach F → Approach F × Report F
    unfolding pose_value follow
    track detection now received p pose_received s =
        let (t, r) =
          evaluate n cfg depth detection (float now) (float received) (pose_value p)
            (float pose_received) s.tracker in
        follow detection now received p r
          (record s { tracker = t; count = r.consecutive_valid_frames })

    camera :
        Option F
        → Value F
        → F
        → Option F
        → Vec3 F
        → F
        → Approach F
        → Gate Reason (Approach F) (Report F)
    unfolding track
    camera after detection now none p pose_received s = reject invalid_time s
    camera after detection now (some received) p pose_received s =
        if not_after n received after
        then reject pre_enable_frame s
        else let (t, r) = track detection now received p pose_received s in pass r t

    -- With a goal only the pose is read.
    unfoldable pub pursue :
        Option F
        → Value F
        → F
        → Value F
        → Vec3 F
        → F
        → Approach F
        → Gate Reason (Approach F) (Report F)
    unfolding camera approach
    pursue after detection now received_v p pose_received s = elim s.goal [
      | some g ↦ let (t, r) = approach g p s in pass r t
      | none ↦ camera after detection now (number n received_v) p pose_received s
    ]

    unfoldable pub stages :
        Option F
        → Value F
        → Value F
        → Value F
        → Value F
        → Value F
        → Approach F
        → Gate Reason (Approach F) (Report F)
    unfolding read_now
    stages after detection now_v received_v pose pose_at = do
      now ← read_now (number n now_v)
      pose_received ← pose_time now pose pose_at
      p ← pose_read pose pose_received
      pursue after detection now received_v p pose_received

    unfoldable pub conclude : Gate Reason (Approach F) (Report F) → Approach F × Report F
    unfolding invalidate
    conclude (reject why s) = invalidate s why
    conclude (pass r s) = (s, r)

    unfoldable pub evaluate_approach :
        Option F
        → Value F
        → Value F
        → Value F
        → Value F
        → Value F
        → Approach F
        → Approach F × Report F
    unfolding conclude
    evaluate_approach after detection now received pose pose_at s = elim s.terminal_reason [
      | some r ↦ (s, report s r none none)
      | none ↦ conclude (stages after detection now received pose pose_at s)
    ]
