-- ===== src/Session/Turns/Handover.antt =====
-- Giving the control back: what a turn of the session leaves requested, enabled and pending.
use bxi_car_v.Base.{Bool, true, false, Option, none, some, List, [], ◌∷◌, ◌≡◌, ◌≢◌, ◌⊎◌, arith}
use bxi_car_v.Base.Gate.{Gate, reject, pass, After, After-bind, Ends}
use bxi_car_v.Base.Numeric.{Numeric, Vec3}
use bxi_car_v.Link.Control.Ways.{targets, last_on, Asked, enable-Ends, close_accounted}
use bxi_car_v.Link.Control.{
  Reply, reply, Failure, Control, enable, publish, publish_goal, stop, disable,
}
use bxi_car_v.Session.{
  Outcome, Tracked, Args, Session, Attempt, Refresh, S, hear, disabled, disable_control, ask,
  released, retried, restarted, switched, adopted, refresh_request, begin,
}
use bxi_car_v.Session.Turns.{
  Turn, Shown, look, armed, explained, given_up, armed_or_not, sent_or_not, driven, control,
  concluded, turn, loop, ended, finished,
}

-- The parameters of the controller may be on only while control is requested or handing it back is
-- pending, and never both; the link is enabled only when they may be on, and only to execute. Where
-- the last request for the parameters was to switch them on, the link still counts as having asked.
pub record IsAccounted {F T : Type 0} (s : Session F T) : Type 0 where
  pub one_at_a_time : (s.disable_pending ≡ false) ⊎ (s.control_requested ≡ false)
  pub wanted :
      (s.link.enable_requested ≡ false) ⊎ (s.control_requested ≡ true) ⊎ (s.disable_pending ≡ true)
  pub asked : (s.link.enabled ≡ false) ⊎ (s.link.enable_requested ≡ true)
  pub executing : (s.link.enable_requested ≡ false) ⊎ (s.link.execute ≡ true)
  pub logged : (last_on s.link.sent ≡ false) ⊎ (s.link.enable_requested ≡ true)

module _ (n : Numeric) (w : Tracked n.F) (args : Args) where
  open n use {F}

  abbrev Fine : S n w args → Type 0
  Fine s = IsAccounted s

  -- After an attempt to disable, with nothing requested.
  disable_control-IsAccounted :
      (a : Attempt F) (s : S n w args)
      → s.control_requested ≡ false
      → (s.link.enabled ≡ false) ⊎ (s.link.enable_requested ≡ true)
      → (s.link.enable_requested ≡ false) ⊎ (s.link.execute ≡ true)
      → (last_on s.link.sent ≡ false) ⊎ (s.link.enable_requested ≡ true)
      → IsAccounted (disable_control n w args a s)
        × ((disable_control n w args a s).control_requested ≡ false)
  unfolding disable_control disabled hear disable
  disable_control-IsAccounted a s h k l m = ground arith

  pub hear-IsAccounted :
      (heard : List (Bool × F)) (s : S n w args) → Fine s → IsAccounted (hear n w args heard s)
  unfolding hear
  hear-IsAccounted heard s h = ground arith

  ask-IsAccounted : (now : F) (s : S n w args) → Fine s → IsAccounted (ask n w args now s).0
  unfolding ask
  ask-IsAccounted now s h = ground arith

  retried-IsAccounted :
      (r : Refresh F) (s : S n w args) (wanted : Bool)
      → Fine s
      → IsAccounted (retried n w args r (s, wanted)).0
        × (((retried n w args r (s, wanted)).0.disable_pending ≡ false)
            ⊎ ((retried n w args r (s, wanted)).1 ≡ false))
  unfolding retried released
  retried-IsAccounted r s wanted h = ground (arith, disable_control-IsAccounted r.retry s)

  switched-IsAccounted :
      (r : Refresh F) (wanted : Bool) (s : S n w args)
      → Fine s
      → (s.disable_pending ≡ false) ⊎ (wanted ≡ false)
      → IsAccounted (switched n w args r wanted s)
  unfolding switched restarted
  switched-IsAccounted r true s h k = ground arith
  switched-IsAccounted r false s h k =
      ground
        (arith, disable_control-IsAccounted r.handover (record s { control_requested = false }))

  adopted-IsAccounted :
      (r : Refresh F) (x : S n w args × Bool)
      → IsAccounted x.0
      → (x.0.disable_pending ≡ false) ⊎ (x.1 ≡ false)
      → IsAccounted (adopted n w args r x)
  unfolding adopted
  adopted-IsAccounted r (s, wanted) h k = ground (arith, switched-IsAccounted r wanted s h k)

  pub refresh_request-IsAccounted :
      (r : Refresh F) (s : S n w args) → Fine s → IsAccounted (refresh_request n w args r s)
  unfolding refresh_request
  refresh_request-IsAccounted r s h =
      let asked = ask n w args r.now s in
      let (kept, free) = retried-IsAccounted r asked.0 asked.1 (ask-IsAccounted r.now s h) in
      ground (arith, adopted-IsAccounted r (retried n w args r asked) kept free)

  look-IsAccounted : (i : Turn F) (s : S n w args) → Fine s → IsAccounted (look n w args i s).0
  unfolding look
  look-IsAccounted i s h = ground arith

  armed-IsAccounted : (i : Turn F) (s : S n w args) → Fine s → IsAccounted (armed n w args i s)
  unfolding armed restarted
  armed-IsAccounted i s h = ground (
    arith,
    refresh_request-IsAccounted i.third (hear n w args i.heard_enabling s)
        (hear-IsAccounted i.heard_enabling s h),
  )

  given_up-IsAccounted :
      (i : Turn F) (why : Failure) (s : S n w args)
      → (s.link.enabled ≡ false) ⊎ (s.link.enable_requested ≡ true)
      → (s.link.enable_requested ≡ false) ⊎ (s.link.execute ≡ true)
      → (last_on s.link.sent ≡ false) ⊎ (s.link.enable_requested ≡ true)
      → IsAccounted (given_up n w args i why s)
  unfolding given_up explained restarted released hear
  given_up-IsAccounted i why s k l m = ground (
    arith,
    disable_control-IsAccounted i.give_up (
        released n w args
          (record (hear n w args i.heard_enabling s) { control_requested = false })),
  )

  armed_or_not-IsAccounted :
      (i : Turn F) (o : Outcome F) (s : S n w args) (x : Gate Failure (Control F) (Unit {0}))
      → Fine s
      → s.control_requested ≡ true
      → Ends
          (λ l. Asked l × (targets l.sent ≡ targets s.link.sent))
          (λ _ l.
            (l.enabled ≡ true)
            × (l.enable_requested ≡ true)
            × (l.execute ≡ true)
            × (targets l.sent ≡ targets s.link.sent))
          x
      → After (λ t. IsAccounted t) (armed_or_not n w args i o s x)
  unfolding armed_or_not
  armed_or_not-IsAccounted i o s (pass _ l) h k (on, asked, executing, same) =
      armed-IsAccounted i (record s { link = l }) (ground arith)
  armed_or_not-IsAccounted i o s (reject why l) h k ((asked, executing, logged), same) =
      ground (arith, given_up-IsAccounted i why (record s { link = l }) asked executing logged)

  driven-IsAccounted :
      (i : Turn F) (o : Outcome F) (s : S n w args) (p : Option (Vec3 F))
      → Fine s
      → s.control_requested ≡ true
      → After (λ t. IsAccounted t) (driven n w args i o s p)
  unfolding driven sent_or_not stop publish publish_goal
  driven-IsAccounted i o s none h k = ground arith
  driven-IsAccounted i o s (some p) h k = ground (
    arith,
    armed_or_not-IsAccounted i o s (enable i.ready i.current i.answer s.link) h k
        (enable-Ends i.ready i.current i.answer s.link (h.asked, h.executing, h.logged)),
  )

  control-IsAccounted :
      (i : Turn F) (x : S n w args × Outcome F)
      → IsAccounted x.0
      → After (λ t. IsAccounted t) (control n w args i x)
  unfolding control
  control-IsAccounted i (s, o) h = ground (arith, driven-IsAccounted i o s o.target_m h)

  concluded-IsAccounted :
      (x : Gate Failure (S n w args) (Shown F))
      → After (λ t. IsAccounted t) x
      → After (λ t. IsAccounted t) (concluded n w args x)
  unfolding concluded
  concluded-IsAccounted (pass r s) h = h
  concluded-IsAccounted (reject why s) h = h

  -- Every turn of the session, whatever the button, the frame and the services do in it, and whether
  -- it raises or not, keeps the account: the controller's parameters may be on only while control is
  -- requested or a handover is pending, never with both; and the link is enabled only if they may be
  -- on and the session may execute.
  pub turn-IsAccounted :
      (i : Turn F) (s : S n w args) → IsAccounted s → After (λ t. IsAccounted t) (turn n w args i s)
  unfolding turn
  turn-IsAccounted i s h =
      let s1 = refresh_request n w args i.first (hear n w args i.heard_first s) in
      let s2 = refresh_request n w args i.second (hear n w args i.heard_second s1) in
      let k1 = refresh_request-IsAccounted i.first _ (hear-IsAccounted i.heard_first s h) in
      let k2 = refresh_request-IsAccounted i.second _ (hear-IsAccounted i.heard_second s1 k1) in
      concluded-IsAccounted (control n w args i (look n w args i s2))
        (control-IsAccounted i (look n w args i s2) (look-IsAccounted i s2 k2))

  loop-IsAccounted :
      (is : List (Turn F)) (s : S n w args)
      → IsAccounted s
      → After (λ t. IsAccounted t) (loop n w args is s)
  unfolding loop
  loop-IsAccounted [] s h = h
  loop-IsAccounted (i ∷ more) s h =
      After-bind (λ t. IsAccounted t) (λ t. IsAccounted t) (turn n w args i s)
        (λ _. loop n w args more) (turn-IsAccounted i s h) (λ t k. k)
        (λ _ t k. loop-IsAccounted more t k)

  begin-IsAccounted :
      (execute : Bool) (link : Control F)
      → link.enabled ≡ false
      → link.enable_requested ≡ false
      → last_on link.sent ≡ false
      → IsAccounted (begin n w args execute link)
  unfolding begin
  begin-IsAccounted execute link h k l = ground arith

  finished_accounted :
      (answer : Reply Bool) (x : Gate Failure (S n w args) (Unit {0}))
      → After (λ t. IsAccounted t) x
      → Ends
          (λ l. answer ≢ reply true)
          (λ _ l. (l.enabled ≡ false) × (l.enable_requested ≡ false) × (last_on l.sent ≡ false))
          (finished n w args answer x)
  unfolding finished ended
  finished_accounted answer (pass _ s) h =
      close_accounted answer s.link h.asked h.executing h.logged
  finished_accounted answer (reject why s) h =
      close_accounted answer s.link h.asked h.executing h.logged

  -- A session that starts with a link that is not enabled, counts as not having asked for the
  -- controller's parameters, and has not switched them on by its last request for them, through any
  -- turns, also where one raises: if closing the link passes, the link is not
  -- enabled, counts as not having asked for the parameters, and the last of its requests to set them,
  -- if any was sent, was one to switch them off. If closing raises, the answer to its request to
  -- switch them off was none that accepts.
  pub session_hands_back :
      (execute : Bool) (link : Control F) (is : List (Turn F)) (answer : Reply Bool)
      → link.enabled ≡ false
      → link.enable_requested ≡ false
      → last_on link.sent ≡ false
      → Ends
          (λ l. answer ≢ reply true)
          (λ _ l. (l.enabled ≡ false) × (l.enable_requested ≡ false) × (last_on l.sent ≡ false))
          (finished n w args answer (loop n w args is (begin n w args execute link)))
  session_hands_back execute link is answer h k l =
      finished_accounted answer (loop n w args is (begin n w args execute link))
        (loop-IsAccounted is (begin n w args execute link) (begin-IsAccounted execute link h k l))
