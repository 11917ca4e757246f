-- ===== src/Link/Control.antt =====
-- The control of the arm in arm_tracking_ros.py: `enable`, `publish`, `publish_goal`, `stop`,
-- `disable` and `close`. What the ROS services answer is an argument; what the node sends is a log,
-- the latest first. A RuntimeError is a rejection.
pub mod Safety
pub mod Ways
use bxi_car_v.Base.{
  Bool, true, false, not, ◌&&◌, ◌||◌, Option, none, some, List, [], ◌∷◌, ◌≡◌, refl, arith,
  if◌then◌else◌,
}
use bxi_car_v.Base.Gate.{Gate, reject, pass, ◌>>=◌, ◌>>◌}
use bxi_car_v.Base.Numeric.{Vec3}

-- How a service call ends in `_wait`.
pub data Reply (A : Type 0) : Type 0 where
  timed_out no_result : Reply A
  reply : A → Reply A

pub data Failure : Type 0 where
  goal_without_x joystick_without_control : Failure
  preview services_unavailable service_timed_out service_no_result : Failure
  no_goal_control already_enabled mode_rejected not_enabled : Failure

pub data Sent (F : Type 0) : Type 0 where
  -- a request to set the three parameters
  set_parameters : Bool → Bool → Bool → Sent F
  stop_message : Sent F
  target goal_target : Vec3 F → Sent F

pub record Control (F : Type 0) : Type 0 where
  pub execute : Bool
  pub track_x : Bool
  pub goal_mode : Bool
  pub enabled : Bool
  pub enable_requested : Bool
  pub sending : Bool
  pub sent : List (Sent F)

abbrev pub Act : Type 0 → Type 0 → Type 0
Act F A = Control F → Gate Failure (Control F) A

-- The values of the three parameters, `none` being one that is not a bool.
first_of_three : List (Option Bool) → Option Bool
first_of_three (some a ∷ some b ∷ some c ∷ []) = some a
first_of_three _ = none

module _ {F : Type 0} where
  -- The checks and fields of `__init__`.
  unfoldable pub create : Bool → Bool → Bool → Bool → Gate Failure (Unit {0}) (Control F)
  create execute joystick track_x goal_mode =
      if joystick && not execute
      then reject joystick_without_control tt
      else if goal_mode && not track_x
      then reject goal_without_x tt
      else pass
          (record {
            execute = execute;
            track_x = track_x;
            goal_mode = goal_mode;
            enabled = false;
            enable_requested = false;
            sending = false;
            sent = [];
          })
          tt

  log : Sent F → Control F → Control F
  log m s = record s { sent = m ∷ s.sent }

  raise_if : Bool → Failure → Act F (Unit {0})
  raise_if true why s = reject why s
  raise_if false why s = pass tt s

  -- `_wait`
  wait : {A : Type 0} → Reply A → Act F A
  wait timed_out s = reject service_timed_out s
  wait no_result s = reject service_no_result s
  wait (reply a) s = pass a s

  -- `_set_enabled(value)`; the answer is `response.result.successful`.
  unfoldable pub set_enabled : Bool → Reply Bool → Act F (Unit {0})
  unfolding log raise_if wait
  set_enabled value answer s =
      (wait answer >>= λ successful. raise_if (not successful) mode_rejected)
        (log (set_parameters value (value && s.track_x) (value && s.goal_mode)) s)

  known : Option Bool → Act F Bool
  known none s = reject no_goal_control s
  known (some b) s = pass b s

  unfoldable pub enable : Bool → Reply (List (Option Bool)) → Reply Bool → Act F (Unit {0})
  unfolding raise_if wait first_of_three known set_enabled
  enable ready current answer s =
      (do
        raise_if (not s.execute) preview
        raise_if (not ready) services_unavailable
        values ← wait current
        busy ← known (first_of_three values)
        raise_if busy already_enabled
        (λ t. pass tt (record t { enable_requested = true }))
        set_enabled true answer
        λ t. pass tt (record t { enabled = true }))
        s

  unfoldable pub publish : Vec3 F → Act F (Unit {0})
  unfolding log
  publish p s =
      if not s.execute || not s.enabled
      then reject not_enabled s
      else pass tt (record s { sent = target p ∷ s.sent; sending = true })

  unfoldable pub publish_goal : Vec3 F → Act F (Unit {0})
  publish_goal p s =
      if (not s.execute || not s.enabled) || not s.goal_mode
      then reject not_enabled s
      else pass tt (record s { sent = goal_target p ∷ s.sent; sending = true })

  unfoldable pub stop : Bool → Control F → Control F
  unfolding log
  stop force s =
      record (if s.execute && (s.enable_requested && (force || s.sending))
        then log stop_message s
        else s) { sending = false }

  unfoldable pub disable : Reply Bool → Act F (Unit {0})
  unfolding stop set_enabled
  disable answer s =
      if s.execute && s.enable_requested
      then (do
        set_enabled false answer
        λ t. pass tt (record t { enabled = false; enable_requested = false }))
          (stop true s)
      else pass tt s

  -- `close()`: the node is torn down whether or not `disable` raises.
  unfoldable pub close : Reply Bool → Act F (Unit {0})
  unfolding disable
  close answer = disable answer
