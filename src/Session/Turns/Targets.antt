-- ===== src/Session/Turns/Targets.antt =====
-- When a turn of the session sends a target.
use bxi_car_v.Base.{
  Bool, true, false, Option, none, some, List, ◌∷◌, ◌≡◌, ◌⊎◌, inl, inr, refl, ◌∙◌, arith,
}
use bxi_car_v.Base.Gate.{Gate, reject, pass, After, After-map, Ends}
use bxi_car_v.Base.Numeric.{Numeric, Vec3}
use bxi_car_v.Link.Pose.{fresh_pose}
use bxi_car_v.Link.Control.{
  Failure, Sent, target, goal_target, Control, enable, publish, publish_goal, disable,
}
use bxi_car_v.Link.Control.Ways.{
  targets, Asked, enable-Ends, targets-stop, Publishes, publish-Ends, publish_goal-Ends,
}
use bxi_car_v.Session.{
  Outcome, Tracked, TrackedLaws, Args, Attempt, Refresh, S, hear, disabled, disable_control, ask,
  released, retried, restarted, switched, adopted, refresh_request,
}
use bxi_car_v.Session.Turns.{
  Turn, Shown, look_with, look, armed, explained, given_up, armed_or_not, sent_or_not, driven,
  control, concluded, turn,
}
use bxi_car_v.Session.Turns.Handover.{IsAccounted, hear-IsAccounted, refresh_request-IsAccounted}

module _ (n : Numeric) (w : Tracked n.F) (args : Args) where
  open n use {F, lit}

  -- Nothing is sent to follow, and nothing is enabled.
  abbrev Quiet : S n w args → S n w args → Type 0
  Quiet s t =
      (targets t.link.sent ≡ targets s.link.sent)
      × ((t.link.enabled ≡ false) ⊎ (s.link.enabled ≡ true))

  disabled-Quiet :
      (s : S n w args) (x : Gate Failure (Control F) (Unit {0}))
      → After
          (λ l.
            (targets l.sent ≡ targets s.link.sent)
            × ((l.enabled ≡ false) ⊎ (s.link.enabled ≡ true)))
          x
      → Quiet s (disabled n w args x s)
  unfolding disabled
  disabled-Quiet s (pass _ l) h = h
  disabled-Quiet s (reject why l) h = h

  disable_control-Quiet : (a : Attempt F) (s : S n w args) → Quiet s (disable_control n w args a s)
  unfolding disable_control disabled hear disable
  disable_control-Quiet a s = ground arith

  adopted-Quiet : (r : Refresh F) (x : S n w args × Bool) → Quiet x.0 (adopted n w args r x)
  unfolding adopted switched restarted
  adopted-Quiet r (s, true) = ground arith
  adopted-Quiet r (s, false) =
      ground (arith, disable_control-Quiet r.handover (record s { control_requested = false }))

  retried-Quiet :
      (r : Refresh F) (s : S n w args) (wanted : Bool) → Quiet s (retried n w args r (s, wanted)).0
  unfolding retried released
  retried-Quiet r s wanted = ground (arith, disable_control-Quiet r.retry s)

  refresh_request-Quiet : (r : Refresh F) (s : S n w args) → Quiet s (refresh_request n w args r s)
  unfolding refresh_request ask
  refresh_request-Quiet r s =
      let asked = ask n w args r.now s in
      ground (arith, retried-Quiet r asked.0 asked.1, adopted-Quiet r (retried n w args r asked))

  heard-Quiet :
      (heard : List (Bool × F)) (r : Refresh F) (s : S n w args)
      → Quiet s (refresh_request n w args r (hear n w args heard s))
  unfolding hear
  heard-Quiet heard r s = ground (arith, refresh_request-Quiet r (hear n w args heard s))

  Quiet-trans : (s t u : S n w args) → Quiet s t → Quiet t u → Quiet s u
  Quiet-trans s t u h k = ground arith

  -- `p` was sent to follow, or as a goal.
  abbrev pub SentOnce : Vec3 F → S n w args → S n w args → Type 0
  SentOnce p s t =
      (targets t.link.sent ≡ target p ∷ targets s.link.sent)
      ⊎ (targets t.link.sent ≡ goal_target p ∷ targets s.link.sent)

  abbrev Driven : Option (Vec3 F) → S n w args → S n w args → Type 0
  Driven o s t =
      (targets t.link.sent ≡ targets s.link.sent)
      ⊎ ((p : Vec3 F) × (o ≡ some p)
          × SentOnce p s t
          × (s.link.enabled ≡ true)
          × (t.link.enabled ≡ true)
          × (s.control_requested ≡ true)
          × (t.control_requested ≡ true))

  targets-armed :
      (i : Turn F) (s : S n w args) → targets (armed n w args i s).link.sent ≡ targets s.link.sent
  unfolding armed restarted hear
  targets-armed i s =
      ground (arith, refresh_request-Quiet i.third (hear n w args i.heard_enabling s))

  targets-given_up :
      (i : Turn F) (why : Failure) (s : S n w args)
      → targets (given_up n w args i why s).link.sent ≡ targets s.link.sent
  unfolding given_up explained restarted released hear
  targets-given_up i why s = ground (
    arith,
    disable_control-Quiet i.give_up (
        released n w args
          (record (hear n w args i.heard_enabling s) { control_requested = false })),
  )

  targets-armed_or_not :
      (i : Turn F) (o : Outcome F) (s : S n w args) (x : Gate Failure (Control F) (Unit {0}))
      → Ends
          (λ l. Asked l × (targets l.sent ≡ targets s.link.sent))
          (λ _ l.
            (l.enabled ≡ true)
            × (l.enable_requested ≡ true)
            × (l.execute ≡ true)
            × (targets l.sent ≡ targets s.link.sent))
          x
      → After (λ t. targets t.link.sent ≡ targets s.link.sent) (armed_or_not n w args i o s x)
  unfolding armed_or_not
  targets-armed_or_not i o s (pass _ l) (on, asked, executing, same) =
      targets-armed i (record s { link = l }) ∙ same
  targets-armed_or_not i o s (reject why l) (asked, same) =
      ground (arith, targets-given_up i why (record s { link = l }))

  sent_or_not-Driven :
      (o : Outcome F) (s : S n w args) (p : Vec3 F) (m : Sent F)
      (x : Gate Failure (Control F) (Unit {0}))
      → s.control_requested ≡ true
      → (m ≡ target p) ⊎ (m ≡ goal_target p)
      → Publishes m s.link x
      → After (Driven (some p) s) (sent_or_not n w args o s x)
  unfolding sent_or_not
  sent_or_not-Driven o s p m (pass _ l) k (inl e) (added, was, on) =
      inr (p, refl, inl (ground arith), was, on, k, k)
  sent_or_not-Driven o s p m (pass _ l) k (inr e) (added, was, on) =
      inr (p, refl, inr (ground arith), was, on, k, k)
  sent_or_not-Driven o s p m (reject why l) k e same = inl (ground arith)

  After-inl :
      (s : S n w args) (o : Option (Vec3 F)) (x : Gate Failure (S n w args) (Shown F))
      → After (λ t. targets t.link.sent ≡ targets s.link.sent) x
      → After (Driven o s) x
  After-inl s o (pass r t) h = inl h
  After-inl s o (reject why t) h = inl h

  driven-Driven :
      (i : Turn F) (o : Outcome F) (s : S n w args) (p : Option (Vec3 F))
      → Asked s.link
      → s.control_requested ≡ true
      → After (Driven p s) (driven n w args i o s p)
  unfolding driven
  driven-Driven i o s none h k = inl (targets-stop false s.link)
  driven-Driven i o s (some p) h k = ground (
    arith,
    After-inl s (some p) (armed_or_not n w args i o s (enable i.ready i.current i.answer s.link)) (
        targets-armed_or_not i o s (enable i.ready i.current i.answer s.link)
          (enable-Ends i.ready i.current i.answer s.link h)),
    sent_or_not-Driven o s p (goal_target p) (publish_goal p s.link) k (inr refl)
        (publish_goal-Ends p s.link),
    sent_or_not-Driven o s p (target p) (publish p s.link) k (inl refl) (publish-Ends p s.link),
  )

  -- The session when a turn comes to evaluate its frame.
  abbrev pub at_frame : Turn F → S n w args → S n w args
  at_frame i s = refresh_request n w args i.second (
      hear n w args i.heard_second
        (refresh_request n w args i.first (hear n w args i.heard_first s)))

  -- The target is that of this tracker's evaluation of the turn's frame, with a fresh pose of the arm.
  abbrev pub Aimed : Turn F → w.State → Vec3 F → Type 0
  Aimed i u p =
      (q : Vec3 F × F) × (fresh_pose n i.second.now (lit 25 2) i.feedback ≡ some q)
      × ((w.evaluate i.detection i.second.now i.received (some q) u).1.target_m ≡ some p)

  look_with-target :
      TrackedLaws w
      → (i : Turn F) (s : S n w args) (pose : Option (Vec3 F × F)) (p : Vec3 F)
      → s.control_requested ≡ true
      → (look_with n w args pose i s).1.target_m ≡ some p
      → (q : Vec3 F × F) × (pose ≡ some q)
        × ((w.evaluate i.detection i.second.now i.received (some q) s.tracker).1.target_m ≡ some p)
  unfolding look_with
  look_with-target laws i s none p k e = absurd (
      ground (
        arith,
        laws.invalidate_none (w.evaluate i.detection i.second.now i.received none s.tracker).0,
      ))
  look_with-target laws i s (some q) p k e = (q, refl, ground arith)

  look_keeps :
      (i : Turn F) (s : S n w args)
      → ((look n w args i s).0.link ≡ s.link)
        × ((look n w args i s).0.control_requested ≡ s.control_requested)
  unfolding look look_with
  look_keeps i s = ground arith

  control-Driven :
      (i : Turn F) (s : S n w args) (o : Outcome F)
      → Asked s.link
      → After (Driven o.target_m s) (control n w args i (s, o))
  unfolding control
  control-Driven i s o h = ground (arith, driven-Driven i o s o.target_m h)

  -- What a turn may send: nothing, or one target of the tracker, for a session that was enabled.
  abbrev pub Sends : Turn F → S n w args → S n w args → Type 0
  Sends i s t =
      (targets t.link.sent ≡ targets s.link.sent)
      ⊎ ((p : Vec3 F) × Aimed i (at_frame i s).tracker p
          × SentOnce p s t
          × (s.link.enabled ≡ true)
          × (t.link.enabled ≡ true)
          × (t.control_requested ≡ true))

  Driven-Sends :
      TrackedLaws w
      → (i : Turn F) (s t : S n w args) → Quiet s (at_frame i s)
      → Driven (look n w args i (at_frame i s)).1.target_m (look n w args i (at_frame i s)).0 t
      → Sends i s t
  unfolding look
  Driven-Sends laws i s t (same, was) (inl e) = inl (cc (e, same, (look_keeps i (at_frame i s)).0))
  Driven-Sends laws i s t (same, was) (inr (p, e, sent, on, still, asked, wanted)) = inr (
    p,
    look_with-target laws i (at_frame i s) (fresh_pose n i.second.now (lit 25 2) i.feedback) p
        (ground (arith, look_keeps i (at_frame i s))) e,
    ground (arith, look_keeps i (at_frame i s)),
    ground (arith, look_keeps i (at_frame i s)),
    still,
    wanted,
  )

  concluded-After :
      (P : S n w args → Type 0) (x : Gate Failure (S n w args) (Shown F))
      → After P x
      → After P (concluded n w args x)
  unfolding concluded
  concluded-After P (pass r s) h = h
  concluded-After P (reject why s) h = h

  -- With a tracker that gives no target when it is invalidated, in any turn of a session that keeps its
  -- account (`IsAccounted`), whether the turn raises or not, at most one target is sent, and only if the link was
  -- enabled before the turn and still is, control is still requested when the turn ends, the arm's
  -- feedback is fresh, and the point is the target that the session's own tracker, as it stands when
  -- the turn comes to its frame, gives for that frame and that feedback. So nothing is sent in the turn
  -- that enables the link.
  pub targets_under_control :
      TrackedLaws w
      → (i : Turn F) (s : S n w args) → IsAccounted s
      → After (Sends i s) (turn n w args i s)
  unfolding turn
  targets_under_control laws i s h =
      let s1 = refresh_request n w args i.first (hear n w args i.heard_first s) in
      let s2 = refresh_request n w args i.second (hear n w args i.heard_second s1) in
      let k1 =
        refresh_request-IsAccounted n w args i.first _
          (hear-IsAccounted n w args i.heard_first s h) in
      let k2 =
        refresh_request-IsAccounted n w args i.second _
          (hear-IsAccounted n w args i.heard_second s1 k1) in
      let quiet =
        Quiet-trans s s1 s2 (heard-Quiet i.heard_first i.first s)
          (heard-Quiet i.heard_second i.second s1) in
      let (s3, o) = look n w args i s2 in
      concluded-After (Sends i s) (control n w args i (s3, o)) (
        After-map (Driven o.target_m s3) (Sends i s) (control n w args i (s3, o))
          (control-Driven i s3 o
            (ground (arith, look_keeps i s2, k2.asked, k2.executing, k2.logged)))
          (λ t. Driven-Sends laws i s t quiet))
