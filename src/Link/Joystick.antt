-- ===== src/Link/Joystick.antt =====
-- The button's request in arm_tracking_ros.py: `_observe_joystick`, `require_joystick_release`,
-- `take_joystick_cancel` and `joystick_requested`. Times are those of the local monotonic clock.
use bxi_car_v.Base.{
  Bool, true, false, not, ◌&&◌, ◌||◌, Option, none, some, List, [], ◌∷◌, All, ◌≡◌, refl, arith,
  if◌then◌else◌,
}
use bxi_car_v.Base.Numeric.{Numeric}

pub record Joystick (F : Type 0) : Type 0 where
  pub received_at : Option F
  pub released : Bool
  pub request : Bool
  pub cancel_pending : Bool

abbrev pub new : {F : Type 0} → Joystick F
new = record { received_at = none; released = false; request = false; cancel_pending = false }

unfoldable pub require_release : {F : Type 0} → Joystick F → Joystick F
require_release s = record {
  received_at = none;
  released = false;
  request = false;
  cancel_pending = s.cancel_pending || s.request;
}

unfoldable pub take_cancel : {F : Type 0} → Joystick F → Joystick F × Bool
take_cancel s = (record s { cancel_pending = false }, s.cancel_pending)

module _ (n : Numeric) where
  open n use {F, lt, le, lit, sub}

  -- `joystick_received_at is None or now - joystick_received_at > 0.3`
  lost : F → Option F → Bool
  lost now none = true
  lost now (some at) = lt (lit 3 1) (sub now at)

  -- `joystick_received_at is None or not 0 <= now - joystick_received_at <= 0.3`
  silent : F → Option F → Bool
  silent now none = true
  silent now (some at) = not (le (lit 0 0) (sub now at) && le (sub now at) (lit 3 1))

  press : Bool → Joystick F → Joystick F
  press false s = record s {
    cancel_pending = s.cancel_pending || s.request;
    released = true;
    request = false;
  }
  press true s = if s.released then record s { request = true } else s

  -- `_observe_joystick(message)` at the time `now`.
  unfoldable pub observe : Bool → F → Joystick F → Joystick F
  unfolding lost press
  observe pressed now s =
      let t = if lost now s.received_at then require_release s else s in
      press pressed (record t { received_at = some now })

  unfoldable pub requested : F → Joystick F → Joystick F × Bool
  unfolding silent
  requested now s = if silent now s.received_at then (require_release s, false) else (s, s.request)

  -- What reaches the joystick's state, but for taking a cancel.
  pub data Event : Type 0 where
    message : Bool → F → Event
    poll : F → Event
    reset : Event

  unfoldable pub step : Event → Joystick F → Joystick F
  step (message pressed now) s = observe pressed now s
  step (poll now) s = (requested now s).0
  step reset s = require_release s

  unfoldable pub run : List Event → Joystick F → Joystick F
  run [] s = s
  run (e ∷ es) s = run es (step e s)

  abbrev pub IsHeld : Event → Type 0
  IsHeld (message pressed now) = pressed ≡ true
  IsHeld _ = Unit

  step_held :
      (e : Event) (s : Joystick F)
      → IsHeld e
      → s.released ≡ false
      → s.request ≡ false
      → ((step e s).released ≡ false) × ((step e s).request ≡ false)
  unfolding step observe requested require_release
  step_held (message pressed now) s held a b = ground arith
  step_held (poll now) s held a b = ground arith
  step_held reset s held a b = ground arith

  run_held :
      (es : List Event) (s : Joystick F)
      → All IsHeld es
      → s.released ≡ false
      → s.request ≡ false
      → (run es s).request ≡ false
  unfolding run
  run_held [] s held a b = b
  run_held (e ∷ es) s (h, hs) a b =
      let (a', b') = step_held e s h a b in run_held es (step e s) hs a' b'

  -- After a release was required, a button that stays pressed makes no request, whatever the
  -- times and however often it is polled.
  pub held_button_is_ignored :
      (es : List Event) (s : Joystick F)
      → All IsHeld es
      → (run es (require_release s)).request ≡ false
  unfolding require_release
  held_button_is_ignored es s held = run_held es _ held refl refl

  step_pending :
      (e : Event) (s : Joystick F) → s.cancel_pending ≡ true → (step e s).cancel_pending ≡ true
  unfolding step observe requested require_release
  step_pending (message pressed now) s h = ground arith
  step_pending (poll now) s h = ground arith
  step_pending reset s h = ground arith

  run_pending :
      (es : List Event) (s : Joystick F)
      → s.cancel_pending ≡ true
      → (run es s).cancel_pending ≡ true
  unfolding run
  run_pending [] s h = h
  run_pending (e ∷ es) s h = run_pending es (step e s) (step_pending e s h)

  released_pending :
      (now : F) (s : Joystick F) → s.request ≡ true → (observe false now s).cancel_pending ≡ true
  unfolding observe require_release
  released_pending now s h = ground arith

  -- A release during a request is reported as a cancel when it is next asked for, also where the
  -- button was pressed again in the meantime.
  pub release_is_reported :
      (now : F) (es : List Event) (s : Joystick F)
      → s.request ≡ true
      → (take_cancel (run es (observe false now s))).1 ≡ true
  unfolding take_cancel
  release_is_reported now es s h = run_pending es (observe false now s) (released_pending now s h)
