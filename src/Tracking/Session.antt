-- ===== src/Tracking/Session.antt =====
-- What lasts through a session of the tracker.
use bxi_car_v.Base.{
  ℕ, suc, ◌+◌, ◌≤◌, true, false, some, List, [], ◌∷◌, ◌≡◌, ◌⊎◌, refl, subst, arith, is_none,
}
use bxi_car_v.Base.Gate.{Gate, reject, pass, After, Keeps}
use bxi_car_v.Base.Value.{Value, Fields}
use bxi_car_v.Base.Numeric.{Numeric, Vec3}
use bxi_car_v.Tracking.Config.{Config}
use bxi_car_v.Tracking.Tracker.{
  Mode, Tracker, Result, Reason, target_jump, acquiring, tracking, cleared, invalidate, no_details,
  new,
}
use bxi_car_v.Tracking.Evaluate.{device_stamp, Aim, gates, accept, conclude, evaluate}
use bxi_car_v.Tracking.Keeps.{IsStable, gates-Keeps, device_stamp-Keeps}

-- One call of `evaluate`.
pub record Call (F : Type 0) : Type 0 where
  pub detection : Value F
  pub now : Value F
  pub received : Value F
  pub pose : Value F
  pub pose_at : Value F

-- The count is bounded, and is 0 exactly when there is no candidate to compare with.
pub record IsSound {F : Type 0} (cfg : Config F) (s : Tracker F) : Type 0 where
  pub bounded : s.count ≤ cfg.min_valid_frames
  pub counted :
      (is_none s.candidate ≡ true) × (s.count ≡ 0) ⊎ (is_none s.candidate ≡ false) × (1 ≤ s.count)

-- How many results in a row, back from the latest, came from accepted frames; a jump starts anew.
abbrev pub streak : List Reason → ℕ
streak [] = 0
streak (acquiring ∷ why) = suc (streak why)
streak (tracking ∷ why) = suc (streak why)
streak (target_jump ∷ why) = 1
streak (_ ∷ why) = 0

module _ (n : Numeric) (cfg : Config n.F) (mode : Mode) where
  open n use {F}

  unfoldable pub call : Call F → Tracker F → Tracker F × Result F
  call c = evaluate n cfg mode c.detection c.now c.received c.pose c.pose_at

  unfoldable pub call_gates : Call F → Tracker F → Gate Reason (Tracker F) (Aim F)
  call_gates c s =
      gates n cfg mode c.detection c.now c.received c.pose c.pose_at
        (record s { details = no_details })

  pub call-eq-conclude : (c : Call F) (s : Tracker F) → call c s ≡ conclude n cfg (call_gates c s)
  unfolding call call_gates evaluate
  call-eq-conclude c s = refl

  -- What the gates keep holds of the state that `accept` or `invalidate` starts from.
  pub gates-After :
      (P : Tracker F → Type 0)
      → IsStable P
      → ((d : Fields F) → Keeps P (device_stamp n d))
      → (c : Call F) (s : Tracker F) → P s
      → After P (call_gates c s)
  unfolding call_gates
  gates-After P st stamped c s h =
      gates-Keeps n P st stamped cfg mode c.detection c.now c.received c.pose c.pose_at _
        (st.at_details s no_details h)

  IsSound-stable : IsStable (IsSound cfg)
  unfolding cleared
  IsSound-stable = record {
    at_now = λ s t h. ground arith;
    at_frame = λ s t h. ground arith;
    at_details = λ s d h. ground arith;
    at_cleared = λ s h. ground arith;
  }

  conclude-IsSound :
      1 ≤ cfg.min_valid_frames
      → (g : Gate Reason (Tracker F) (Aim F)) → After (IsSound cfg) g
      → IsSound cfg (conclude n cfg g).0
  unfolding conclude accept invalidate
  conclude-IsSound positive (reject why s) h = ground arith
  conclude-IsSound positive (pass aim s) h = ground arith

  -- With at least one frame required, a call keeps the counts right, whatever it is given.
  pub call-IsSound :
      1 ≤ cfg.min_valid_frames
      → (c : Call F) (s : Tracker F) → IsSound cfg s
      → IsSound cfg (call c s).0
  call-IsSound positive c s h = rw call-eq-conclude (
      conclude-IsSound positive (call_gates c s) (
        gates-After (IsSound cfg) IsSound-stable
          (device_stamp-Keeps n (IsSound cfg) (λ s t h. ground arith)) c s h))

  -- The depth that a pixel-depth session holds.
  abbrev Reference : F → Tracker F → Type 0
  Reference r s = s.reference_depth_m ≡ some r

  Reference-stable : (r : F) → IsStable (Reference r)
  unfolding cleared
  Reference-stable r = record {
    at_now = λ s t h. h;
    at_frame = λ s t h. h;
    at_details = λ s d h. h;
    at_cleared = λ s h. h;
  }

  conclude-Reference :
      (r : F) (g : Gate Reason (Tracker F) (Aim F))
      → After (Reference r) g
      → Reference r (conclude n cfg g).0
  unfolding conclude accept invalidate
  conclude-Reference r (reject why s) h = h
  conclude-Reference r (pass aim s) h = ground arith

  call-Reference : (r : F) (c : Call F) (s : Tracker F) → Reference r s → Reference r (call c s).0
  call-Reference r c s h = rw call-eq-conclude (
      conclude-Reference r (call_gates c s) (
        gates-After (Reference r) (Reference-stable r)
          (device_stamp-Keeps n (Reference r) (λ s t h. h)) c s h))

  -- A run of calls, with the reasons of the results, the latest first.
  unfoldable pub run : List (Call F) → Tracker F → List Reason → Tracker F × List Reason
  run [] s why = (s, why)
  run (c ∷ cs) s why = run cs (call c s).0 ((call c s).1.reason ∷ why)

  run-Reference :
      (r : F) (cs : List (Call F)) (s : Tracker F) (why : List Reason)
      → Reference r s
      → Reference r (run cs s why).0
  unfolding run
  run-Reference r [] s why h = h
  run-Reference r (c ∷ cs) s why h = run-Reference r cs (call c s).0 _ (call-Reference r c s h)

  -- The count before a call bounds the count after the gates.
  Below-stable : (k : ℕ) → IsStable (λ (s : Tracker F). s.count ≤ k)
  unfolding cleared
  Below-stable k = record {
    at_now = λ s t h. h;
    at_frame = λ s t h. h;
    at_details = λ s d h. h;
    at_cleared = λ s h. omega arith;
  }

  conclude-streak :
      (why : List Reason) (g : Gate Reason (Tracker F) (Aim F))
      → After (λ s. s.count ≤ streak why) g
      → let (t, r) = conclude n cfg g in t.count ≤ streak (r.reason ∷ why)
  unfolding conclude accept invalidate
  conclude-streak why (reject r s) h = ground arith
  conclude-streak why (pass aim s) h = ground arith

  call-streak :
      (why : List Reason) (c : Call F) (s : Tracker F)
      → s.count ≤ streak why
      → let (t, r) = call c s in t.count ≤ streak (r.reason ∷ why)
  call-streak why c s h = rw call-eq-conclude (
      conclude-streak why (call_gates c s) (
        gates-After (λ s. s.count ≤ streak why) (Below-stable (streak why))
          (device_stamp-Keeps n (λ s. s.count ≤ streak why) (λ s t h. h)) c s h))

  run-streak :
      (cs : List (Call F)) (s : Tracker F) (why : List Reason)
      → s.count ≤ streak why
      → let (t, reasons) = run cs s why in t.count ≤ streak reasons
  unfolding run
  run-streak [] s why h = h
  run-streak (c ∷ cs) s why h = run-streak cs (call c s).0 _ (call-streak why c s h)

  conclude_target :
      (g : Gate Reason (Tracker F) (Aim F)) (t : Vec3 F)
      → (conclude n cfg g).1.target_m ≡ some t
      → let (s, r) = conclude n cfg g in (cfg.min_valid_frames ≤ s.count) × (r.reason ≡ tracking)
  unfolding conclude accept invalidate
  conclude_target (reject why s) t h = ground arith
  conclude_target (pass aim s) t h = ground arith

  pub call_target :
      (c : Call F) (s : Tracker F) (t : Vec3 F)
      → (call c s).1.target_m ≡ some t
      → (cfg.min_valid_frames ≤ (call c s).0.count) × ((call c s).1.reason ≡ tracking)
  call_target c s t h =
      rw call-eq-conclude (conclude_target (call_gates c s) t (rw call-eq-conclude at h))

  -- In a session of calls from the start, a target comes only with the reason `tracking`, and only
  -- where this frame and those just before it, `min_valid_frames` in all, were accepted in a row.
  pub target_needs_streak :
      (earlier : List (Call F)) (c : Call F) (t : Vec3 F)
      → (call c (run earlier new []).0).1.target_m ≡ some t
      → ((call c (run earlier new []).0).1.reason ≡ tracking)
        × (cfg.min_valid_frames ≤ 1 + streak (run earlier new []).1)
  target_needs_streak earlier c t h =
      let (enough, e) = call_target c (run earlier new []).0 t h in
      let counted : (call c (run earlier new []).0).0.count
          ≤ streak ((call c (run earlier new []).0).1.reason ∷ (run earlier new []).1) =
        call-streak _ c _ (run-streak earlier new [] (omega arith)) in
      (
        e,
        omega (
          arith,
          subst
              (λ why.
                (call c (run earlier new []).0).0.count ≤ streak (why ∷ (run earlier new []).1))
              e counted,
          enough,
        ),
      )
