-- ===== src/Session/Requests.antt =====
-- What `refresh_request` of arm_tracking.py makes of the button.
use bxi_car_v.Base.{Bool, true, false, some, ◌≡◌, ◌≢◌, ◌⊎◌, ◌∙◌, sym, subst, arith}
use bxi_car_v.Base.Numeric.{Numeric}
use bxi_car_v.Link.Joystick.{requested, take_cancel, require_release}
use bxi_car_v.Link.Control.{reply, Control, disable}
use bxi_car_v.Link.Control.Ways.{HandedOver}
use bxi_car_v.Session.{
  Tracked, Args, Attempt, Refresh, S, hear, disabled, disable_control, ask, due, released, retried,
  restarted, switched, adopted, differ, refresh_request,
}

module _ (n : Numeric) (w : Tracked n.F) (args : Args) where
  open n use {F}

  ask_cancelled :
      (now : F) (s : S n w args) → s.joystick.cancel_pending ≡ true → (ask n w args now s).1 ≡ false
  unfolding ask requested take_cancel require_release
  ask_cancelled now s h = ground arith

  -- An attempt to hand over leaves the handover pending if it is not accepted, and else ends it.
  abbrev pub Tried : Attempt F → Control F → S n w args → Type 0
  Tried a before t =
      (t.disable_pending ≡ true) × (a.answer ≢ reply true)
      ⊎ (t.disable_pending ≡ false) × HandedOver a.answer before t.link

  disable_control_outcome :
      (a : Attempt F) (s : S n w args)
      → let t = disable_control n w args a s in
        (t.last_disable_attempt ≡ some a.at)
        × (t.control_requested ≡ s.control_requested)
        × Tried a s.link t
  unfolding disable_control disabled hear disable
  disable_control_outcome a s = ground arith

  -- What a retry leaves, by whether it is due.
  abbrev Retried : Refresh F → S n w args → S n w args → Type 0
  Retried r s t =
      (t.control_requested ≡ false)
      × (t.joystick.released ≡ false)
      × ((due n w args r.now s.last_disable_attempt ≡ false)
            × (t.disable_pending ≡ true)
            × (t.last_disable_attempt ≡ s.last_disable_attempt)
          ⊎ (due n w args r.now s.last_disable_attempt ≡ true)
            × (t.last_disable_attempt ≡ some r.retry.at)
            × Tried r.retry s.link t)

  retried-Retried :
      (r : Refresh F) (s : S n w args) (wanted : Bool)
      → s.disable_pending ≡ true
      → s.control_requested ≡ false
      → Retried r s (retried n w args r (s, wanted)).0
        × ((retried n w args r (s, wanted)).1 ≡ false)
  unfolding retried released require_release
  retried-Retried r s wanted h k = ground (arith, disable_control_outcome r.retry s)

  ask_keeps :
      (now : F) (s : S n w args)
      → let t = (ask n w args now s).0 in
        (t.disable_pending ≡ s.disable_pending)
        × (t.control_requested ≡ s.control_requested)
        × (t.last_disable_attempt ≡ s.last_disable_attempt)
        × (t.link ≡ s.link)
  unfolding ask
  ask_keeps now s = ground arith

  adopted_idle :
      (r : Refresh F) (x : S n w args × Bool)
      → x.0.control_requested ≡ false
      → x.1 ≡ false
      → adopted n w args r x ≡ x.0
  unfolding adopted differ
  adopted_idle r (s, wanted) h k = ground arith

  refresh_on :
      (r : Refresh F) (s : S n w args)
      → args.joystick ≡ true
      → refresh_request n w args r s
        ≡ adopted n w args r (retried n w args r (ask n w args r.now s))
  unfolding refresh_request
  refresh_on r s on = ground arith

  abbrev Cancelled : Refresh F → S n w args → S n w args → Type 0
  Cancelled r s t =
      (t.control_requested ≡ false)
      × ((s.control_requested ≡ false)
          ⊎ (s.disable_pending ≡ true)
          ⊎ (t.tracker ≡ w.make (some r.now))
            × (t.last_disable_attempt ≡ some r.handover.at)
            × Tried r.handover s.link t)

  retried-off :
      (r : Refresh F) (s : S n w args) (wanted : Bool)
      → wanted ≡ false
      → ((retried n w args r (s, wanted)).1 ≡ false)
        × ((retried n w args r (s, wanted)).0.control_requested ≡ s.control_requested)
        × ((s.disable_pending ≡ true) ⊎ ((retried n w args r (s, wanted)).0.link ≡ s.link))
  unfolding retried released
  retried-off r s wanted h = ground (arith, disable_control_outcome r.retry s)

  adopted-Cancelled :
      (r : Refresh F) (s : S n w args) (x : S n w args × Bool)
      → x.1 ≡ false
      → x.0.control_requested ≡ s.control_requested
      → (s.disable_pending ≡ true) ⊎ (x.0.link ≡ s.link)
      → Cancelled r s (adopted n w args r x)
  unfolding adopted differ switched restarted
  adopted-Cancelled r s (t, wanted) h k l =
      ground (arith, disable_control_outcome r.handover (record t { control_requested = false }))

  -- With the button in use, an OFF that the link still holds wins over whatever the button says by now:
  -- after `refresh_request`, control is not requested. Where it was requested, with no handover pending, the
  -- tracker is a new one from now on, and handing over was tried: it is pending and the service did not
  -- accept, or it is not pending and either the service accepted the request to switch the
  -- controller's parameters off, which was sent after a stop, or the link had not asked for them.
  pub cancel_wins :
      (r : Refresh F) (s : S n w args)
      → args.joystick ≡ true
      → s.joystick.cancel_pending ≡ true
      → let t = refresh_request n w args r s in
        (t.control_requested ≡ false)
        × ((s.control_requested ≡ false)
            ⊎ (s.disable_pending ≡ true)
            ⊎ (t.tracker ≡ w.make (some r.now))
              × (t.last_disable_attempt ≡ some r.handover.at)
              × Tried r.handover s.link t)
  cancel_wins r s on h =
      let asked = ask n w args r.now s in
      let (pending, wanted, last, link) = ask_keeps r.now s in
      let (off, was, kept) = retried-off r asked.0 asked.1 (ask_cancelled r.now s h) in
      subst (Cancelled r s) (sym (refresh_on r s on)) (
        adopted-Cancelled r s (retried n w args r asked) off (ground (arith, pending, wanted, was))
          (ground (arith, pending, link, kept)))

  -- With the button in use, while a handover is pending and nothing is requested, `refresh_request` lets
  -- nothing be requested and wants the button released first. Where half a second has passed since the last attempt it tries again: the handover
  -- is then pending and the service did not accept, or it is over and either the service accepted the
  -- request to switch the controller's parameters off, which was sent after a stop and leaves the link
  -- not enabled, or the link had not asked for them.
  pub pending_is_retried :
      (r : Refresh F) (s : S n w args)
      → args.joystick ≡ true
      → s.disable_pending ≡ true
      → s.control_requested ≡ false
      → let t = refresh_request n w args r s in
        (t.control_requested ≡ false)
        × (t.joystick.released ≡ false)
        × ((due n w args r.now s.last_disable_attempt ≡ false)
              × (t.disable_pending ≡ true)
              × (t.last_disable_attempt ≡ s.last_disable_attempt)
            ⊎ (due n w args r.now s.last_disable_attempt ≡ true)
              × (t.last_disable_attempt ≡ some r.retry.at)
              × Tried r.retry s.link t)
  pending_is_retried r s on h k =
      let asked = ask n w args r.now s in
      let (pending, wanted, last, link) = ask_keeps r.now s in
      let (done, off) = retried-Retried r asked.0 asked.1 (pending ∙ h) (wanted ∙ k) in
      subst (Retried r s)
        (sym (refresh_on r s on ∙ adopted_idle r (retried n w args r asked) done.0 off))
        (subst
          (λ at.
            Retried r (record asked.0 { last_disable_attempt = at; link = s.link })
              (retried n w args r asked).0)
          last
          (subst (λ l. Retried r (record asked.0 { link = l }) (retried n w args r asked).0) link
            done))
