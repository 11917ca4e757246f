-- ===== src/Session/Turns.antt =====
-- A turn of the loop in `run` of arm_tracking.py, from the frame to its record, and the loop.
pub mod Handover
pub mod Targets
use bxi_car_v.Base.{Bool, true, false, not, ◌&&◌, Option, none, some, List, [], ◌∷◌, if◌then◌else◌}
use bxi_car_v.Base.Gate.{Gate, reject, pass, ◌>>=◌}
use bxi_car_v.Base.Numeric.{Numeric, Vec3}
use bxi_car_v.Base.Value.{Value}
use bxi_car_v.Link.Pose.{Feedback, fresh_pose}
use bxi_car_v.Link.Control.{Reply, Failure, Control, enable, publish, publish_goal, stop, close}
use bxi_car_v.Session.{
  Outcome, Tracked, Args, Session, Attempt, Refresh, S, hear, disable_control, released, restarted,
  refresh_request,
}

pub record Turn (F : Type 0) : Type 0 where
  pub heard_first : List (Bool × F)
  pub first : Refresh F
  -- the frame: what the detector makes of it, and the time it counts as received
  pub detection : Value F
  pub received : F
  pub heard_second : List (Bool × F)
  pub second : Refresh F
  -- the arm's feedback as the callbacks left it
  pub feedback : Feedback F
  -- `ros.enable`: whether the services are there, what they answer, and what arrives meanwhile
  pub ready : Bool
  pub current : Reply (List (Option Bool))
  pub answer : Reply Bool
  pub heard_enabling : List (Bool × F)
  pub third : Refresh F
  pub armed_at : F
  pub give_up : Attempt F
  pub restarted_at : F

-- What the record of a frame says of the tracking.
pub data Status : Type 0 where
  evaluated arming_wait_for_new_frame : Status
  disable_pending enable_failed button6_to_start : Status

pub record Shown (F : Type 0) : Type 0 where
  pub status : Status
  pub outcome : Outcome F

abbrev pub invalid_tracking : {F : Type 0} → Outcome F
invalid_tracking = record { target_m = none; is_goal = false }

module _ (n : Numeric) (w : Tracked n.F) (args : Args) where
  open n use {F, lit}

  abbrev G : Type 0 → Type 0
  G A = Gate Failure (S n w args) A

  is_none : Option (Vec3 F × F) → Bool
  is_none none = true
  is_none (some p) = false

  look_with : Option (Vec3 F × F) → Turn F → S n w args → S n w args × Outcome F
  unfolding is_none
  look_with pose i s =
      let (t, o) = w.evaluate i.detection i.second.now i.received pose s.tracker in
      if s.control_requested && is_none pose
      then (let (u, p) = w.invalidate t in (record s { tracker = u }, p))
      else (record s { tracker = t }, o)

  -- The evaluation of the frame.
  unfoldable pub look : Turn F → S n w args → S n w args × Outcome F
  unfolding look_with
  look i s = look_with (fresh_pose n i.second.now (lit 25 2) i.feedback) i s

  -- After `ros.enable()`, in which a cancel may have arrived.
  armed : Turn F → S n w args → S n w args
  unfolding restarted hear
  armed i s =
      let t = refresh_request n w args i.third (hear n w args i.heard_enabling s) in
      if args.approach && t.control_requested then restarted n w args i.armed_at t else t

  explained : Failure → S n w args → S n w args
  explained why s = if s.disable_pending then s else record s { enable_error = some why }

  given_up : Turn F → Failure → S n w args → S n w args
  unfolding explained restarted released hear
  given_up i why s = explained why (
      restarted n w args i.restarted_at (
        disable_control n w args i.give_up (
          released n w args
            (record (hear n w args i.heard_enabling s) { control_requested = false }))))

  armed_or_not : Turn F → Outcome F → S n w args → Gate Failure (Control F) (Unit {0}) → G (Shown F)
  unfolding armed given_up
  armed_or_not i o s (pass _ l) =
      pass (record { status = arming_wait_for_new_frame; outcome = invalid_tracking })
        (armed i (record s { link = l }))
  armed_or_not i o s (reject why l) =
      if args.joystick
      then pass (record { status = evaluated; outcome = o })
          (given_up i why (record s { link = l }))
      else reject why (record s { link = l })

  sent_or_not : Outcome F → S n w args → Gate Failure (Control F) (Unit {0}) → G (Shown F)
  sent_or_not o s (pass _ l) =
      pass (record { status = evaluated; outcome = o }) (record s { link = l })
  sent_or_not o s (reject why l) = reject why (record s { link = l })

  -- The control of a turn in which control is requested, for the target if there is one.
  driven : Turn F → Outcome F → S n w args → Option (Vec3 F) → G (Shown F)
  unfolding armed_or_not sent_or_not
  driven i o s none =
      pass (record { status = evaluated; outcome = o }) (record s { link = stop false s.link })
  driven i o s (some p) =
      if not s.link.enabled
      then armed_or_not i o s (enable i.ready i.current i.answer s.link)
      else if args.approach && o.is_goal
      then sent_or_not o s (publish_goal p s.link)
      else sent_or_not o s (publish p s.link)

  unfoldable pub control : Turn F → S n w args × Outcome F → G (Shown F)
  unfolding driven
  control i (s, o) =
      if s.control_requested
      then driven i o s o.target_m
      else pass (record { status = evaluated; outcome = o }) s

  idle_status : S n w args → Status
  idle_status s =
      if s.disable_pending
      then disable_pending
      else elim s.enable_error [ none ↦ button6_to_start | some why ↦ enable_failed ]

  -- What `tracking` says in the end.
  shown : Shown F → S n w args → Shown F
  unfolding idle_status
  shown r s =
      if args.joystick && not s.control_requested
      then record { status = idle_status s; outcome = invalid_tracking }
      else r

  concluded : G (Shown F) → G (Shown F)
  unfolding shown
  concluded (pass r s) = pass (shown r s) s
  concluded (reject why s) = reject why s

  -- A turn of the loop, up to the record of the frame.
  unfoldable pub turn : Turn F → S n w args → G (Shown F)
  unfolding concluded hear
  turn i s =
      let s1 = refresh_request n w args i.first (hear n w args i.heard_first s) in
      let s2 = refresh_request n w args i.second (hear n w args i.heard_second s1) in
      concluded (control i (look i s2))

  -- The loop, for as many frames as it runs.
  unfoldable pub loop : List (Turn F) → S n w args → G (Unit {0})
  loop [] s = pass tt s
  loop (i ∷ more) s = (turn i >>= λ _. loop more) s

  ended : {A : Type 0} → G A → S n w args
  ended (pass _ s) = s
  ended (reject why s) = s

  -- The `finally` clause: the link is closed however the loop ends.
  unfoldable pub finished : Reply Bool → G (Unit {0}) → Gate Failure (Control F) (Unit {0})
  unfolding ended
  finished answer g = close answer (ended g).link
