-- ===== src/Link/Control/Ways.antt =====
-- How each operation of the control ends, and what it adds to the targets that were sent.
use bxi_car_v.Base.{Bool, true, false, Option, List, [], ◌∷◌, ◌≡◌, ◌≢◌, ◌⊎◌, arith}
use bxi_car_v.Base.Gate.{Gate, Ends}
use bxi_car_v.Base.Numeric.{Vec3}
use bxi_car_v.Link.Control.{
  Reply, reply, Failure, Sent, set_parameters, stop_message, target, goal_target, Control, enable,
  publish, publish_goal, stop, disable, close,
}

module _ {F : Type 0} where
  -- The targets and goals in the log.
  abbrev pub targets : List (Sent F) → List (Sent F)
  targets [] = []
  targets (set_parameters a b c ∷ l) = targets l
  targets (stop_message ∷ l) = targets l
  targets (target p ∷ l) = target p ∷ targets l
  targets (goal_target p ∷ l) = goal_target p ∷ targets l

  -- Whether the last request to set the controller's parameters was one to switch them on.
  abbrev pub last_on : List (Sent F) → Bool
  last_on [] = false
  last_on (set_parameters a b c ∷ l) = a
  last_on (stop_message ∷ l) = last_on l
  last_on (target p ∷ l) = last_on l
  last_on (goal_target p ∷ l) = last_on l

  abbrev pub Asked : Control F → Type 0
  Asked s =
      ((s.enabled ≡ false) ⊎ (s.enable_requested ≡ true))
      × ((s.enable_requested ≡ false) ⊎ (s.execute ≡ true))
      × ((last_on s.sent ≡ false) ⊎ (s.enable_requested ≡ true))

  -- The controller's parameters were switched off by a request that was accepted, or the link had not
  -- asked for them.
  abbrev pub HandedOver : Reply Bool → Control F → Control F → Type 0
  HandedOver answer s l =
      (answer ≡ reply true)
        × (l.enabled ≡ false)
        × (l.enable_requested ≡ false)
        × (l.sent ≡ set_parameters false false false ∷ stop_message ∷ s.sent)
      ⊎ ((s.execute ≡ false) ⊎ (s.enable_requested ≡ false)) × (l ≡ s)

  pub enable-Ends :
      (ready : Bool) (current : Reply (List (Option Bool))) (answer : Reply Bool) (s : Control F)
      → Asked s
      → Ends
          (λ l. Asked l × (targets l.sent ≡ targets s.sent))
          (λ _ l.
            (l.enabled ≡ true)
            × (l.enable_requested ≡ true)
            × (l.execute ≡ true)
            × (targets l.sent ≡ targets s.sent))
          (enable ready current answer s)
  unfolding enable
  enable-Ends ready current answer s h = ground arith

  pub targets-disable :
      (answer : Reply Bool) (s : Control F)
      → Ends
          (λ l. targets l.sent ≡ targets s.sent)
          (λ _ l. targets l.sent ≡ targets s.sent)
          (disable answer s)
  unfolding disable
  targets-disable answer s = ground arith

  pub targets-stop : (force : Bool) (s : Control F) → targets (stop force s).sent ≡ targets s.sent
  unfolding stop
  targets-stop force s = ground arith

  pub close_accounted :
      (answer : Reply Bool) (s : Control F)
      → (s.enabled ≡ false) ⊎ (s.enable_requested ≡ true)
      → (s.enable_requested ≡ false) ⊎ (s.execute ≡ true)
      → (last_on s.sent ≡ false) ⊎ (s.enable_requested ≡ true)
      → Ends
          (λ l. answer ≢ reply true)
          (λ _ l. (l.enabled ≡ false) × (l.enable_requested ≡ false) × (last_on l.sent ≡ false))
          (close answer s)
  unfolding close disable
  close_accounted answer s h k l = ground arith

  -- What `publish` and `publish_goal` leave, when they pass.
  abbrev pub Publishes : Sent F → Control F → Gate Failure (Control F) (Unit {0}) → Type 0
  Publishes m s x =
      Ends (λ l. l ≡ s) (λ _ l. (l.sent ≡ m ∷ s.sent) × (s.enabled ≡ true) × (l.enabled ≡ true)) x

  pub publish-Ends : (p : Vec3 F) (s : Control F) → Publishes (target p) s (publish p s)
  unfolding publish
  publish-Ends p s = ground arith

  pub publish_goal-Ends :
      (p : Vec3 F) (s : Control F) → Publishes (goal_target p) s (publish_goal p s)
  unfolding publish_goal
  publish_goal-Ends p s = ground arith
