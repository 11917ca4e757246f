-- ===== src/Approach/Terminal.antt =====
-- The phases of an approach session: what a captured goal fixes, and what ends the session.
use bxi_car_v.Base.{
  Option, none, some, Option-cases, List, [], ◌∷◌, map, All, ◌⊎◌, inl, inr, ◌≡◌, refl, arith,
}
use bxi_car_v.Base.Gate.{Gate, reject, pass, Ends}
use bxi_car_v.Base.Value.{Value}
use bxi_car_v.Base.Numeric.{Numeric, Vec3}
use bxi_car_v.Tracking.Config.{Config}
use bxi_car_v.Tracking.Tracker.{Reason, goal_reached}
use bxi_car_v.Approach.{
  Phase, CommandKind, aligning, settling, approaching, complete, cancelled, Goal, Approach, Report,
  start, report, invalidate, pursue, stages, conclude, evaluate_approach,
}
use bxi_car_v.Approach.Calls.{Call, evaluated, invalidated, Same, call, run, stages-Ends}

-- Which phases go with a goal and a terminal reason.
abbrev pub Agrees : {F : Type 0} → Option (Goal F) → Option Reason → Phase → Type 0
Agrees none none aligning = Unit
Agrees none none settling = Unit
Agrees (some g) none approaching = Unit
Agrees (some g) (some goal_reached) complete = Unit
Agrees (some g) (some why) cancelled = Unit
Agrees _ _ _ = ⊥

abbrev pub IsConsistent : {F : Type 0} → Approach F → Type 0
IsConsistent s = Agrees s.goal s.terminal_reason s.phase

-- A report commands the goal or nothing.
abbrev pub Obeys : {F : Type 0} → Goal F → Report F → Type 0
Obeys g r =
    (r.target_m ≡ none) ⊎ ((r.target_m ≡ some g.point) × (r.command_kind ≡ some CommandKind.goal))

module _ (n : Numeric) (cfg : Config n.F) (after : Option n.F) where
  open n use {F}

  conclude-IsConsistent :
      (g : Gate Reason (Approach F) (Report F))
      → Ends (λ s. IsConsistent s × (s.terminal_reason ≡ none)) (λ r s. IsConsistent s) g
      → IsConsistent (conclude n cfg g).0
  unfolding conclude
  conclude-IsConsistent (reject why s) h = ground arith
  conclude-IsConsistent (pass r s) h = h

  pursue-IsConsistent :
      (detection received : Value F) (now at : F) (p : Vec3 F) (s t : Approach F)
      → IsConsistent s
      → s.terminal_reason ≡ none
      → Same s t
      → Ends
          (λ s. IsConsistent s × (s.terminal_reason ≡ none))
          (λ r s. IsConsistent s)
          (pursue n cfg after detection now received p at t)
  unfolding pursue
  pursue-IsConsistent detection received now at p s t h live same = ground arith

  pub call_terminal :
      (why : Reason) (c : Call F) (s : Approach F)
      → s.terminal_reason ≡ some why
      → call n cfg after c s ≡ (s, report s why none none)
  unfolding call evaluate_approach invalidate
  call_terminal why (evaluated a b c d e) s h = ground arith
  call_terminal why (invalidated r) s h = ground arith

  pub evaluate_live :
      (a b c d e : Value F) (s : Approach F)
      → s.terminal_reason ≡ none
      → evaluate_approach n cfg after a b c d e s ≡ conclude n cfg (stages n cfg after a b c d e s)
  unfolding evaluate_approach
  evaluate_live a b c d e s h = ground arith

  pub call-IsConsistent :
      (c : Call F) (s : Approach F) → IsConsistent s → IsConsistent (call n cfg after c s).0
  unfolding call invalidate
  call-IsConsistent (invalidated why) s h = ground arith
  call-IsConsistent (evaluated a b c d e) s h = elim (Option-cases s.terminal_reason) [
    | inr (why, ended) ↦ rw (call_terminal why (evaluated a b c d e) s ended) h
    | inl live ↦ rw (evaluate_live a b c d e s live) (
        conclude-IsConsistent (stages n cfg after a b c d e s) (
          stages-Ends n cfg after (λ s. IsConsistent s × (s.terminal_reason ≡ none))
            (λ r s. IsConsistent s) a b c d e s (λ t same. ground arith)
            (λ now at p t e same. pursue-IsConsistent a c now at p s t h live same)))
  ]

  run-IsConsistent :
      (cs : List (Call F)) (s : Approach F) → IsConsistent s → IsConsistent (run n cfg after cs s).0
  unfolding run
  run-IsConsistent [] s h = h
  run-IsConsistent (c ∷ cs) s h =
      run-IsConsistent cs (call n cfg after c s).0 (call-IsConsistent c s h)

  -- In a session of calls from the start the phase always fits the goal and the terminal reason.
  pub session-IsConsistent : (cs : List (Call F)) → IsConsistent (run n cfg after cs start).0
  session-IsConsistent cs = run-IsConsistent cs start tt

  -- A terminal reason is final: no later call changes the state, and each reports that reason
  -- with no target.
  pub terminal_absorbs :
      (why : Reason) (cs : List (Call F)) (s : Approach F)
      → s.terminal_reason ≡ some why
      → run n cfg after cs s ≡ (s, map (λ c. report s why none none) cs)
  unfolding run
  terminal_absorbs why [] s h = refl
  terminal_absorbs why (c ∷ cs) s h =
      rw (call_terminal why c s h) (rw (terminal_absorbs why cs s h))

  pursue-Obeys :
      (g : Goal F) (detection received : Value F) (now at : F) (p : Vec3 F) (s t : Approach F)
      → s.goal ≡ some g
      → Same s t
      → Ends
          (λ s. s.goal ≡ some g)
          (λ r s. (s.goal ≡ some g) × Obeys g r)
          (pursue n cfg after detection now received p at t)
  unfolding pursue
  pursue-Obeys g detection received now at p s t h same = ground arith

  conclude-Obeys :
      (g : Goal F) (x : Gate Reason (Approach F) (Report F))
      → Ends (λ s. s.goal ≡ some g) (λ r s. (s.goal ≡ some g) × Obeys g r) x
      → ((conclude n cfg x).0.goal ≡ some g) × Obeys g (conclude n cfg x).1
  unfolding conclude
  conclude-Obeys g (reject why s) h = ground arith
  conclude-Obeys g (pass r s) h = h

  pub call-Obeys :
      (g : Goal F) (c : Call F) (s : Approach F)
      → s.goal ≡ some g
      → ((call n cfg after c s).0.goal ≡ some g) × Obeys g (call n cfg after c s).1
  unfolding call invalidate
  call-Obeys g (invalidated why) s h = ground arith
  call-Obeys g (evaluated a b c d e) s h = elim (Option-cases s.terminal_reason) [
    | inr (why, ended) ↦ rw (call_terminal why (evaluated a b c d e) s ended) (h, inl refl)
    | inl live ↦ rw (evaluate_live a b c d e s live) (
        conclude-Obeys g (stages n cfg after a b c d e s) (
          stages-Ends n cfg after (λ s. s.goal ≡ some g) (λ r s. (s.goal ≡ some g) × Obeys g r) a b
            c d e s (λ t same. ground arith)
            (λ now at p t e same. pursue-Obeys g a c now at p s t h same)))
  ]

  -- Once a goal is captured it never changes, and every later target is that goal, sent as one.
  pub goal_is_final :
      (g : Goal F) (cs : List (Call F)) (s : Approach F)
      → s.goal ≡ some g
      → ((run n cfg after cs s).0.goal ≡ some g) × All (Obeys g) (run n cfg after cs s).1
  unfolding run
  goal_is_final g [] s h = (h, tt)
  goal_is_final g (c ∷ cs) s h =
      let (kept, obeyed) = call-Obeys g c s h in
      let (final, rest) = goal_is_final g cs (call n cfg after c s).0 kept in
      (final, (obeyed, rest))
