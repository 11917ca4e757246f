-- ===== src/Link/Control/Safety.antt =====
-- What holds of the control through any sequence of its operations, whatever the services answer.
use bxi_car_v.Base.{Bool, true, false, Option, List, [], ◌∷◌, ◌≡◌, ◌≢◌, ◌⊎◌, inr, ◌∙◌, refl, arith}
use bxi_car_v.Base.Gate.{Gate, reject, pass}
use bxi_car_v.Base.Numeric.{Vec3}
use bxi_car_v.Link.Control.{
  Reply, reply, Failure, Sent, set_parameters, stop_message, target, goal_target, Control, enable,
  publish, publish_goal, stop, disable, close, create,
}

pub data Op (F : Type 0) : Type 0 where
  enabling : Bool → Reply (List (Option Bool)) → Reply Bool → Op F
  publishing publishing_goal : Vec3 F → Op F
  stopping : Bool → Op F
  disabling closing : Reply Bool → Op F

module _ {F : Type 0} where
  -- The state after an operation, also after a raise.
  abbrev ending : {A : Type 0} → Gate Failure (Control F) A → Control F
  ending (reject why s) = s
  ending (pass a s) = s

  unfoldable pub step : Op F → Control F → Control F
  step (enabling ready current answer) s = ending (enable ready current answer s)
  step (publishing p) s = ending (publish p s)
  step (publishing_goal p) s = ending (publish_goal p s)
  step (stopping force) s = stop force s
  step (disabling answer) s = ending (disable answer s)
  step (closing answer) s = ending (close answer s)

  unfoldable pub run : List (Op F) → Control F → Control F
  run [] s = s
  run (o ∷ os) s = run os (step o s)

  -- A request to enable, with X tracking and goals as the link was made for.
  abbrev Asked : Bool → Bool → List (Sent F) → Type 0
  Asked x g [] = ⊥
  Asked x g (set_parameters true a b ∷ l) = (a ≡ x) × (b ≡ g)
  Asked x g (_ ∷ l) = Asked x g l

  -- Every target in the log came after such a request, and a goal only in goal mode.
  abbrev pub IsLegal : Bool → Bool → List (Sent F) → Type 0
  IsLegal x g [] = Unit
  IsLegal x g (target p ∷ l) = Asked x g l × IsLegal x g l
  IsLegal x g (goal_target p ∷ l) = Asked x g l × (g ≡ true) × IsLegal x g l
  IsLegal x g (_ ∷ l) = IsLegal x g l

  pub record IsSafe (s : Control F) : Type 0 where
    pub requested : (s.enabled ≡ false) ⊎ (s.enable_requested ≡ true)
    pub executing : (s.enable_requested ≡ false) ⊎ (s.execute ≡ true)
    pub streaming : (s.sending ≡ false) ⊎ (s.enabled ≡ true)
    pub asked_first : (s.enable_requested ≡ false) ⊎ Asked s.track_x s.goal_mode s.sent
    pub legal : IsLegal s.track_x s.goal_mode s.sent

  step-IsSafe : (o : Op F) (s : Control F) → IsSafe s → IsSafe (step o s)
  unfolding step enable publish publish_goal stop disable close
  step-IsSafe (enabling ready current answer) s h = ground arith
  step-IsSafe (publishing p) s h = ground arith
  step-IsSafe (publishing_goal p) s h = ground arith
  step-IsSafe (stopping force) s h = ground arith
  step-IsSafe (disabling answer) s h = ground arith
  step-IsSafe (closing answer) s h = ground arith

  run-IsSafe : (os : List (Op F)) (s : Control F) → IsSafe s → IsSafe (run os s)
  unfolding run
  run-IsSafe [] s h = h
  run-IsSafe (o ∷ os) s h = run-IsSafe os (step o s) (step-IsSafe o s h)

  create-IsSafe :
      (execute joystick track_x goal_mode : Bool) {s : Control F} {x : Unit {0}}
      → create execute joystick track_x goal_mode ≡ pass s x
      → IsSafe s
  unfolding create
  create-IsSafe execute joystick track_x goal_mode h = ground arith

  -- From its creation on, through any operations and answers, the control is safe: it is enabled only
  -- after a request to enable, which needs `execute`; it streams only while enabled; and every target
  -- in the log came after a request to enable with the link's own modes, a goal only in goal mode.
  pub created-IsSafe :
      (execute joystick track_x goal_mode : Bool) (os : List (Op F)) {s : Control F} {x : Unit {0}}
      → create execute joystick track_x goal_mode ≡ pass s x
      → IsSafe (run os s)
  created-IsSafe execute joystick track_x goal_mode os h =
      run-IsSafe os _ (create-IsSafe execute joystick track_x goal_mode h)

  step_preview :
      (o : Op F) (s : Control F)
      → s.execute ≡ false
      → ((step o s).execute ≡ false) × ((step o s).sent ≡ s.sent)
  unfolding step enable publish publish_goal stop disable close
  step_preview (enabling ready current answer) s h = ground arith
  step_preview (publishing p) s h = ground arith
  step_preview (publishing_goal p) s h = ground arith
  step_preview (stopping force) s h = ground arith
  step_preview (disabling answer) s h = ground arith
  step_preview (closing answer) s h = ground arith

  -- A preview sends nothing, whatever is called.
  pub preview_is_silent :
      (os : List (Op F)) (s : Control F) → s.execute ≡ false → (run os s).sent ≡ s.sent
  unfolding run
  preview_is_silent [] s h = refl
  preview_is_silent (o ∷ os) s h =
      let (still, same) = step_preview o s h in preview_is_silent os (step o s) still ∙ same

  sent-disabling :
      (answer : Reply Bool) (s : Control F)
      → s.execute ≡ true
      → s.enable_requested ≡ true
      → (step (disabling answer) s).sent ≡ set_parameters false false false ∷ stop_message ∷ s.sent
  unfolding step disable
  sent-disabling answer s a b = ground arith

  -- Whatever the service answers, `disable` during a session sends the stop and then the request to
  -- disable; only an accepted request ends the session, and otherwise the next call sends both again.
  pub disable_outcome :
      (answer : Reply Bool) (s : Control F)
      → s.execute ≡ true
      → s.enable_requested ≡ true
      → let t = step (disabling answer) s in
        (t.sent ≡ set_parameters false false false ∷ stop_message ∷ s.sent)
        × (t.sending ≡ false)
        × ((answer ≡ reply true) × (t.enabled ≡ false) × (t.enable_requested ≡ false)
            ⊎ (answer ≢ reply true)
              × (t.enabled ≡ s.enabled)
              × (t.enable_requested ≡ true)
              × ((again : Reply Bool)
                  → (step (disabling again) t).sent
                    ≡ set_parameters false false false ∷ stop_message ∷ t.sent))
  unfolding step disable
  disable_outcome (reply true) s a b = ground arith
  disable_outcome answer s a b = (
    ground arith,
    ground arith,
    inr (
      (λ e. absurd (cc e)),
      ground arith,
      ground arith,
      λ again. sent-disabling again (step (disabling answer) s) (ground arith) (ground arith),
    ),
  )
