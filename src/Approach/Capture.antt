-- ===== src/Approach/Capture.antt =====
-- When a goal is captured, and what loses it.
use bxi_car_v.Base.{
  false, Option, none, some, Option-cases, List, [], ◌∷◌, map, All, ◌⊎◌, inl, inr, ◌≡◌, ◌∙◌, refl,
  sym, ap, subst, arith,
}
use bxi_car_v.Base.Gate.{Gate, reject, pass, Ends, Ends-map}
use bxi_car_v.Base.Value.{Value, null}
use bxi_car_v.Base.Numeric.{Numeric, Vec3, number}
use bxi_car_v.Tracking.Config.{Config}
use bxi_car_v.Tracking.Tracker.{Reason}
use bxi_car_v.Tracking.Evaluate.{not_after}
use bxi_car_v.Approach.{
  Phase, settling, start, invalidate, Goal, Approach, Report, report, read_now, pose_time, pursue,
  stages, conclude, evaluate_approach,
}
use bxi_car_v.Approach.Calls.{Call, evaluated, invalidated, Same, call, run, stages-Ends}
use bxi_car_v.Approach.Terminal.{
  IsConsistent, call-IsConsistent, call-Obeys, call_terminal, evaluate_live, terminal_absorbs,
}

module _ (n : Numeric) (cfg : Config n.F) (after : Option n.F) where
  open n use {F, lt, le, add, abs, lit}

  -- Without a pose the stages reject, and leave the goal alone.
  stages_poseless :
      (detection now received at : Value F) (s : Approach F)
      → Ends
          (λ t. (t.goal ≡ s.goal) × (t.terminal_reason ≡ s.terminal_reason))
          (λ r t. ⊥)
          (stages n cfg after detection now received null at s)
  unfolding stages read_now pose_time
  stages_poseless detection now received at s = ground arith

  conclude_poseless :
      (g : Goal F) (x : Gate Reason (Approach F) (Report F))
      → Ends (λ t. (t.goal ≡ some g) × (t.terminal_reason ≡ none)) (λ r t. ⊥) x
      → (why : Reason) × ((conclude n cfg x).0.terminal_reason ≡ some why)
  unfolding conclude
  conclude_poseless g (reject why t) h = (why, ground arith)
  conclude_poseless g (pass r t) h = absurd h

  poseless_call :
      (g : Goal F) (detection now received at : Value F) (s : Approach F)
      → s.goal ≡ some g
      → (why : Reason) × ((call n cfg after
            (evaluated detection now received null at)
            s).0.terminal_reason
          ≡ some why)
  unfolding call
  poseless_call g detection now received at s h = elim (Option-cases s.terminal_reason) [
    | inr (why, ended) ↦ (
      why,
      rw (call_terminal n cfg after why (evaluated detection now received null at) s ended) ended,
    )
    | inl live ↦ rw (evaluate_live n cfg after detection now received null at s live) (
        conclude_poseless g (stages n cfg after detection now received null at s) (
          Ends-map (λ t. (t.goal ≡ s.goal) × (t.terminal_reason ≡ s.terminal_reason)) (λ r t. ⊥) _ _
            _ (stages_poseless detection now received at s) (λ t k. ground arith)
            (λ r t k. absurd k)))
  ]

  silent :
      (why : Reason) (cs : List (Call F)) (s : Approach F)
      → All (λ (r : Report F). r.target_m ≡ none) (map (λ c. report s why none none) cs)
  silent why [] s = tt
  silent why (c ∷ cs) s = (refl, silent why cs s)

  -- A frame that misses the pose, after the goal is captured, ends the session: every later call
  -- reports no target.
  pub lost_feedback_is_final :
      (g : Goal F) (detection now received at : Value F) (cs : List (Call F)) (s : Approach F)
      → s.goal ≡ some g
      → All
          (λ r. r.target_m ≡ none)
          (run n cfg after cs (call n cfg after (evaluated detection now received null at) s).0).1
  lost_feedback_is_final g detection now received at cs s h =
      let t = (call n cfg after (evaluated detection now received null at) s).0 in
      let (why, ended) = poseless_call g detection now received at s h in
      rw (terminal_absorbs n cfg after why cs t ended) (silent why cs t)

  -- When zero Y was first commanded in the current alignment, told from the reports alone: the time of
  -- the first of the latest unbroken row of calls that report to be settling.
  abbrev pub since : Option F → Option F → Phase → Option F
  since first now settling = elim first [ none ↦ now | some started ↦ some started ]
  since first now _ = none

  abbrev time_of : Call F → Option F
  time_of (evaluated detection now received pose at) = number n now
  time_of (invalidated why) = none

  abbrev pub zero_since : List (Call F) → List (Report F) → Option F → Option F
  zero_since [] rs first = first
  zero_since (c ∷ cs) [] first = first
  zero_since (c ∷ cs) (r ∷ rs) first = zero_since cs rs (since first (time_of c) r.phase)

  -- The facts that a capture rests on: the frame is later than the controller's hold and than the
  -- settling time after the first zero-Y command, and the goal has no lateral part.
  abbrev pub Captures : Value F → Value F → Option F → Goal F → Type 0
  Captures now received first g =
      (started : F) × (since first (number n now) settling ≡ some started)
      × (number n received ≡ some g.capture_received_at)
      × (not_after n g.capture_received_at after ≡ false)
      × (le g.capture_received_at (add started (lit 3 1)) ≡ false)
      × (g.point.y ≡ lit 0 0)

  -- Without a goal, a call keeps the account of the first zero-Y command, or captures a goal.
  abbrev Advances : Value F → Value F → Option F → Report F → Approach F → Type 0
  Advances now received first r t =
      (t.goal ≡ none) × (t.settle_started_at ≡ since first (number n now) r.phase)
      ⊎ (g : Goal F) × (t.goal ≡ some g) × Captures now received first g

  -- The same, for a time that is read already and by the goal that a call leaves.
  abbrev Steps : F → Value F → Option F → Phase → Option F → Option (Goal F) → Type 0
  Steps now received first phase kept none = kept ≡ since first (some now) phase
  Steps now received first phase kept (some g) =
      (number n received ≡ some g.capture_received_at)
      × (not_after n g.capture_received_at after ≡ false)
      × (le g.capture_received_at
            (add (elim first [ none ↦ now | some started ↦ started ]) (lit 3 1))
          ≡ false)
      × (g.point.y ≡ lit 0 0)

  pursue-Steps :
      (detection received : Value F) (now at : F) (p : Vec3 F) (s t : Approach F)
      → s.goal ≡ none
      → s.terminal_reason ≡ none
      → Same s t
      → Ends
          (λ u. (u.goal ≡ none) × (u.terminal_reason ≡ none))
          (λ r u. Steps now received s.settle_started_at r.phase u.settle_started_at u.goal)
          (pursue n cfg after detection now received p at t)
  unfolding pursue
  pursue-Steps detection received now at p s t h live same = ground arith

  started_at :
      (now : F) (first : Option F)
      → since first (some now) settling ≡ some (elim first [ none ↦ now | some t ↦ t ])
  started_at now none = refl
  started_at now (some t) = refl

  Steps-Advances :
      (now_v received : Value F) (now : F) (first : Option F) (r : Report F) (u : Approach F)
      (o : Option (Goal F))
      → number n now_v ≡ some now
      → u.goal ≡ o
      → Steps now received first r.phase u.settle_started_at o
      → Advances now_v received first r u
  Steps-Advances now_v received now first r u none e f h =
      inl (f, h ∙ ap (λ t. since first t r.phase) (sym e))
  Steps-Advances now_v received now first r u (some g) e f (a, b, c, d) = inr (
    g,
    f,
    (
      elim first [ none ↦ now | some t ↦ t ],
      ap (λ t. since first t settling) e ∙ started_at now first,
      a,
      b,
      c,
      d,
    ),
  )

  conclude-Advances :
      (now received : Value F) (first : Option F) (x : Gate Reason (Approach F) (Report F))
      → Ends (λ u. (u.goal ≡ none) × (u.terminal_reason ≡ none)) (Advances now received first) x
      → Advances now received first (conclude n cfg x).1 (conclude n cfg x).0
  unfolding conclude
  conclude-Advances now received first (reject why t) h = ground arith
  conclude-Advances now received first (pass r t) h = h

  evaluated-Advances :
      (detection now received pose at : Value F) (s : Approach F)
      → s.goal ≡ none
      → s.terminal_reason ≡ none
      → let (t, r) = evaluate_approach n cfg after detection now received pose at s in
        Advances now received s.settle_started_at r t
  evaluated-Advances detection now received pose at s h live =
      rw (evaluate_live n cfg after detection now received pose at s live) (
        conclude-Advances now received s.settle_started_at
          (stages n cfg after detection now received pose at s)
          (stages-Ends n cfg after (λ u. (u.goal ≡ none) × (u.terminal_reason ≡ none))
            (Advances now received s.settle_started_at) detection now received pose at s
            (λ t same. ground arith)
            (λ a b p t e same.
              Ends-map (λ u. (u.goal ≡ none) × (u.terminal_reason ≡ none))
                (λ r u. Steps a received s.settle_started_at r.phase u.settle_started_at u.goal) _
                (Advances now received s.settle_started_at)
                (pursue n cfg after detection a received p b t)
                (pursue-Steps detection received a b p s t h live same) (λ u k. k)
                (λ r u k. Steps-Advances now received a s.settle_started_at r u u.goal e refl k))))

  -- The session has kept the time of the first zero-Y command.
  abbrev Tracks : Option F → Approach F → Type 0
  Tracks first s = IsConsistent s × (s.goal ≡ none → s.settle_started_at ≡ first)

  goalless-live : (s : Approach F) → IsConsistent s → s.goal ≡ none → s.terminal_reason ≡ none
  goalless-live s h e = ground arith

  kept-Tracks :
      (g : Goal F) (c : Call F) (s : Approach F) (first : Option F)
      → IsConsistent s
      → s.goal ≡ some g
      → Tracks first (call n cfg after c s).0
  kept-Tracks g c s first h e = (
    call-IsConsistent n cfg after c s h,
    λ gone. absurd (cc (sym (call-Obeys n cfg after g c s e).0 ∙ gone)),
  )

  advanced-Tracks :
      (now received : Value F) (first : Option F) (r : Report F) (t : Approach F)
      → IsConsistent t
      → Advances now received first r t
      → Tracks (since first (number n now) r.phase) t
  advanced-Tracks now received first r t h (inl (gone, same)) = (h, λ _. same)
  advanced-Tracks now received first r t h (inr (g, e, rest)) =
      (h, λ gone. absurd (cc (sym e ∙ gone)))

  invalidated-settle :
      (why : Reason) (s : Approach F)
      → s.goal ≡ none
      → s.terminal_reason ≡ none
      → ((invalidate s why).0.settle_started_at ≡ none)
        × ((invalidate s why).1.phase ≡ Phase.aligning)
  unfolding invalidate
  invalidated-settle why s e live = ground arith

  goalless-Tracks :
      (c : Call F) (s : Approach F)
      → IsConsistent s
      → s.goal ≡ none
      → Tracks
          (since s.settle_started_at (time_of c) (call n cfg after c s).1.phase)
          (call n cfg after c s).0
  unfolding call
  goalless-Tracks (evaluated detection now received pose at) s h e =
      advanced-Tracks now received s.settle_started_at
        (evaluate_approach n cfg after detection now received pose at s).1
        (evaluate_approach n cfg after detection now received pose at s).0
        (call-IsConsistent n cfg after (evaluated detection now received pose at) s h)
        (evaluated-Advances detection now received pose at s e (goalless-live s h e))
  goalless-Tracks (invalidated why) s h e =
      let (gone, phase) = invalidated-settle why s e (goalless-live s h e) in
      (
        call-IsConsistent n cfg after (invalidated why) s h,
        λ _. gone ∙ ap (since s.settle_started_at none) (sym phase),
      )

  call-Tracks :
      (c : Call F) (s : Approach F) (first : Option F)
      → Tracks first s
      → Tracks (since first (time_of c) (call n cfg after c s).1.phase) (call n cfg after c s).0
  call-Tracks c s first (h, k) = elim (Option-cases s.goal) [
    | inr (g, e) ↦ kept-Tracks g c s _ h e
    | inl e ↦
        subst
          (λ o.
            Tracks (since o (time_of c) (call n cfg after c s).1.phase) (call n cfg after c s).0)
          (k e) (goalless-Tracks c s h e)
  ]

  run-Tracks :
      (cs : List (Call F)) (s : Approach F) (first : Option F)
      → Tracks first s
      → let (t, rs) = run n cfg after cs s in Tracks (zero_since cs rs first) t
  unfolding run
  run-Tracks [] s first h = h
  run-Tracks (c ∷ cs) s first h =
      run-Tracks cs (call n cfg after c s).0
        (since first (time_of c) (call n cfg after c s).1.phase) (call-Tracks c s first h)

  captured_now :
      (now received : Value F) (first : Option F) (r : Report F) (t : Approach F) (g : Goal F)
      → t.goal ≡ some g
      → Advances now received first r t
      → Captures now received first g
  captured_now now received first r t g e (inl (gone, same)) = absurd (cc (sym e ∙ gone))
  captured_now now received first r t g e (inr (h, f, facts)) =
      subst (Captures now received first) {x = h} {y = g} (cc (e, f)) facts

  -- In a session of calls from the start, a goal is captured only by a call whose frame was not received
  -- at or before the controller's hold, nor at or before 0.3 s after the first zero-Y command of the
  -- current alignment; the goal has no lateral part. That command is the first of the calls that have reported
  -- to be settling without a break up to now, or this call if the last one did not.
  pub capture_conditions :
      (cs : List (Call F)) (detection now received pose at : Value F) (g : Goal F)
      → (run n cfg after cs start).0.goal ≡ none
      → (evaluate_approach n cfg after detection now received pose at
          (run n cfg after cs start).0).0.goal
        ≡ some g
      → Captures now received (zero_since cs (run n cfg after cs start).1 none) g
  capture_conditions cs detection now received pose at g e f =
      let (s, rs) = run n cfg after cs start in
      let (h, k) = run-Tracks cs start none (tt, λ _. refl) in
      let (t, r) = evaluate_approach n cfg after detection now received pose at s in
      captured_now now received (zero_since cs rs none) r t g f (
        subst (λ o. Advances now received o r t) (k e)
          (evaluated-Advances detection now received pose at s e (goalless-live s h e)))
