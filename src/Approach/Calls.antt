-- ===== src/Approach/Calls.antt =====
-- Calls on an approach session, one at a time and in a row, and what the first stages of `evaluate`
-- leave alone.
use bxi_car_v.Base.{Option, none, some, List, [], ◌∷◌, ◌≡◌, arith}
use bxi_car_v.Base.Gate.{After, Ends, After-Ends, Ends-bind}
use bxi_car_v.Base.Value.{Value}
use bxi_car_v.Base.Numeric.{Numeric, Vec3, number}
use bxi_car_v.Tracking.Config.{Config}
use bxi_car_v.Tracking.Tracker.{Reason}
use bxi_car_v.Approach.{
  Approach, Report, invalidate, read_now, pose_time, pose_read, pursue, stages, evaluate_approach,
}

-- What the session loop may do with an approach.
pub data Call (F : Type 0) : Type 0 where
  evaluated : Value F → Value F → Value F → Value F → Value F → Call F
  invalidated : Reason → Call F

-- The fields that only a goal, a target or an invalidation writes.
pub record Same {F : Type 0} (s t : Approach F) : Type 0 where
  pub tracker : t.tracker ≡ s.tracker
  pub phase : t.phase ≡ s.phase
  pub settle : t.settle_started_at ≡ s.settle_started_at
  pub goal : t.goal ≡ s.goal
  pub terminal : t.terminal_reason ≡ s.terminal_reason

module _ (n : Numeric) (cfg : Config n.F) (after : Option n.F) where
  open n use {F}

  unfoldable pub call : Call F → Approach F → Approach F × Report F
  call (evaluated detection now received pose pose_at) s =
      evaluate_approach n cfg after detection now received pose pose_at s
  call (invalidated why) s = invalidate s why

  unfoldable pub run : List (Call F) → Approach F → Approach F × List (Report F)
  run [] s = (s, [])
  run (c ∷ cs) s = let (t, r) = call c s in let (u, rs) = run cs t in (u, r ∷ rs)

  read_now-Same :
      (o : Option F) (s t : Approach F)
      → Same s t
      → Ends (Same s) (λ now u. Same s u × (o ≡ some now)) (read_now n cfg o t)
  unfolding read_now
  read_now-Same none s t h = ground arith
  read_now-Same (some now) s t h = ground arith

  pose_time-Same :
      (now : F) (pose at : Value F) (s t : Approach F)
      → Same s t
      → After (Same s) (pose_time n cfg now pose at t)
  unfolding pose_time
  pose_time-Same now pose at s t h = ground arith

  pose_read-Same :
      (pose : Value F) (at : F) (s t : Approach F)
      → Same s t
      → After (Same s) (pose_read n cfg pose at t)
  unfolding pose_read
  pose_read-Same pose at s t h = ground arith

  -- How the stages end, from how `pursue` ends where they reach it.
  pub stages-Ends :
      (P : Approach F → Type 0) (Q : Report F → Approach F → Type 0)
      (detection now_v received pose pose_at : Value F) (s : Approach F)
      → ((t : Approach F) → Same s t → P t)
      → ((now at : F) (p : Vec3 F) (t : Approach F)
          → number n now_v ≡ some now
          → Same s t
          → Ends P Q (pursue n cfg after detection now received p at t))
      → Ends P Q (stages n cfg after detection now_v received pose pose_at s)
  unfolding stages
  stages-Ends P Q detection now_v received pose pose_at s stop go =
      Ends-bind (Same s) (λ now u. Same s u × (number n now_v ≡ some now)) P Q
        (read_now n cfg (number n now_v) s) _ (read_now-Same (number n now_v) s s (ground arith))
        stop
        λ now t1 (h1, e).
          Ends-bind (Same s) (λ a. Same s) P Q (pose_time n cfg now pose pose_at t1) _
            (After-Ends (Same s) _ (pose_time-Same now pose pose_at s t1 h1)) stop
            λ at t2 h2.
              Ends-bind (Same s) (λ a. Same s) P Q (pose_read n cfg pose at t2) _
                (After-Ends (Same s) _ (pose_read-Same pose at s t2 h2)) stop
                λ p t3 h3. go now at p t3 e h3
