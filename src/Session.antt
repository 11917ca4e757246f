-- ===== src/Session.antt =====
-- The loop of `run` in arm_tracking.py, with a calibration and a ROS link: what the button, the arm's
-- feedback, the tracker and the services answer decide about the control of the arm. What the world
-- does in a turn is an argument; the tracker is an interface, which the two trackers fill.
pub mod Requests
pub mod Follower
pub mod Turns
use bxi_car_v.Base.{
  Bool, true, false, not, ◌&&◌, Option, none, some, List, [], ◌∷◌, ◌≡◌, if◌then◌else◌,
}
use bxi_car_v.Base.Gate.{Gate, reject, pass}
use bxi_car_v.Base.Numeric.{Numeric, Vec3}
use bxi_car_v.Base.Value.{Value}
use bxi_car_v.Link.Joystick
use bxi_car_v.Link.Joystick.{Joystick, observe, requested, take_cancel, require_release}
use bxi_car_v.Link.Pose.{Feedback, fresh_pose}
use bxi_car_v.Link.Control.{Reply, Failure, Control, enable, publish, publish_goal, stop, disable}

-- What the loop reads of a tracker's result; it is valid if there is a target.
pub record Outcome (F : Type 0) : Type 0 where
  pub target_m : Option (Vec3 F)
  -- `command_kind == "goal"`
  pub is_goal : Bool

-- What the loop calls of a tracker. The time of `make` is `none` for -inf; `invalidate` is for
-- "arm_feedback_missing_or_stale".
pub record Tracked (F : Type 0) : Type 1 where
  pub State : Type 0
  pub make : Option F → State
  pub evaluate : Value F → F → F → Option (Vec3 F × F) → State → State × Outcome F
  pub invalidate : State → State × Outcome F

-- An invalidated tracker gives no target.
pub record TrackedLaws {F : Type 0} (w : Tracked F) : Type 0 where
  pub invalidate_none : (s : w.State) → (w.invalidate s).1.target_m ≡ none

pub record Args : Type 0 where
  pub joystick : Bool
  -- `tracking_mode == "approach"`
  pub approach : Bool

-- The variables of `run` that the loop keeps, and the two parts of the link that its calls write.
pub record Session (F T : Type 0) : Type 0 where
  pub tracker : T
  pub control_requested : Bool
  pub enable_error : Option Failure
  pub disable_pending : Bool
  pub last_disable_attempt : Option F
  pub link : Control F
  pub joystick : Joystick F

-- A call of `ros.disable`: its time, the service's answer, and the button's messages that arrive
-- while it waits (none where no service is called).
pub record Attempt (F : Type 0) : Type 0 where
  pub at : F
  pub answer : Reply Bool
  pub heard : List (Bool × F)

-- A call of `refresh_request`: its time, and the two calls of `disable_control` that it may make.
pub record Refresh (F : Type 0) : Type 0 where
  pub now : F
  pub retry : Attempt F
  pub handover : Attempt F

-- `requested != control_requested`
differ : Bool → Bool → Bool
differ true b = not b
differ false b = b

module _ (n : Numeric) (w : Tracked n.F) (args : Args) where
  open n use {F, lit, sub, le}

  abbrev pub S : Type 0
  S = Session F w.State

  -- The variables before the loop; with `--execute` control is requested from the start.
  unfoldable pub begin : Bool → Control F → S
  begin execute link = record {
    tracker = w.make none;
    control_requested = execute;
    enable_error = none;
    disable_pending = false;
    last_disable_attempt = none;
    link = link;
    joystick = Joystick.new;
  }

  -- The button's messages that the spinning node hands to `_observe_joystick`.
  hear_messages : List (Bool × F) → Joystick F → Joystick F
  hear_messages [] j = j
  hear_messages ((pressed, at) ∷ more) j = hear_messages more (observe n pressed at j)

  pub hear : List (Bool × F) → S → S
  unfolding hear_messages
  hear heard s = record s { joystick = hear_messages heard s.joystick }

  disabled : Gate Failure (Control F) (Unit {0}) → S → S
  disabled (pass _ l) s = record s { link = l; disable_pending = false; enable_error = none }
  disabled (reject why l) s = record s {
    link = l;
    disable_pending = true;
    enable_error = some why;
    joystick = require_release s.joystick;
  }

  -- `disable_control()`
  unfoldable pub disable_control : Attempt F → S → S
  unfolding disabled hear
  disable_control a s =
      disabled (disable a.answer s.link)
        (hear a.heard (record s { last_disable_attempt = some a.at }))

  -- `ros.joystick_requested(now)` and `ros.take_joystick_cancel()`
  unfoldable pub ask : F → S → S × Bool
  ask now s =
      let (polled, wanted) = requested n now s.joystick in
      let (taken, cancelled) = take_cancel polled in
      if cancelled
      then (record s { joystick = if wanted then require_release taken else taken }, false)
      else (record s { joystick = taken }, wanted)

  -- `now - last_disable_attempt >= 0.5`
  pub due : F → Option F → Bool
  due now none = true
  due now (some at) = le (lit 5 1) (sub now at)

  released : S → S
  released s = record s { joystick = require_release s.joystick }

  -- A handover that is pending is tried again, and nothing is requested meanwhile.
  retried : Refresh F → S × Bool → S × Bool
  unfolding due released
  retried r (s, wanted) =
      if s.disable_pending
      then (
        released (if due r.now s.last_disable_attempt then disable_control r.retry s else s),
        false,
      )
      else (s, wanted)

  restarted : F → S → S
  restarted now s = record s { tracker = w.make (some now) }

  switched : Refresh F → Bool → S → S
  unfolding restarted
  switched r true s = record (restarted r.now s) { control_requested = true; enable_error = none }
  switched r false s =
      restarted r.now (disable_control r.handover (record s { control_requested = false }))

  adopted : Refresh F → S × Bool → S
  unfolding differ switched
  adopted r (s, wanted) = if differ wanted s.control_requested then switched r wanted s else s

  -- `refresh_request(now)`
  unfoldable pub refresh_request : Refresh F → S → S
  unfolding retried adopted
  refresh_request r s = if args.joystick then adopted r (retried r (ask r.now s)) else s
