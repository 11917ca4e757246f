-- ===== src/Examples/Session.antt =====
-- Turns of a session that approaches a goal, switched by the button.
use bxi_car_v.Base.{true, false, some, [], ◌∷◌, ◌≡◌, ◌≢◌, ◌⊎◌, inl, inr, refl}
use bxi_car_v.Base.Int.{ℤ}
use bxi_car_v.Base.Gate.{After, Ends}
use bxi_car_v.Link.Control.{reply, timed_out}
use bxi_car_v.Link.Control.Ways.{last_on}
use bxi_car_v.Session.{Tracked, Args, Attempt, Refresh, S, begin, due, refresh_request}
use bxi_car_v.Session.Turns.{Turn, turn, loop, finished}
use bxi_car_v.Session.Turns.Handover.{IsAccounted, session_hands_back}
use bxi_car_v.Session.Turns.Targets.{Sends, targets_under_control}
use bxi_car_v.Session.Requests.{Tried, cancel_wins, pending_is_retried}
use bxi_car_v.Session.Follower.{arm_approach, arm_approach-TrackedLaws}
use bxi_car_v.Examples.Micro.{numbers}
use bxi_car_v.Examples.Tracking.{m, config, still}
use bxi_car_v.Examples.Link.{controlling, enabled, received, pressed}

abbrev follower : Tracked ℤ
follower = arm_approach numbers config

abbrev args : Args
args = record { joystick = true; approach = true }

abbrev attempt : Attempt ℤ
attempt = record { at = m 5000000; answer = timed_out; heard = [] }

abbrev accepted : Attempt ℤ
accepted = record attempt { answer = reply true }

abbrev refresh : Refresh ℤ
refresh = record { now = m 5000000; retry = accepted; handover = attempt }

abbrev a_turn : Turn ℤ
a_turn = record {
  heard_first = (true, m 5000000) ∷ [];
  first = refresh;
  detection = still 100;
  received = m 5000000;
  heard_second = [];
  second = refresh;
  feedback = received;
  ready = true;
  current = reply (some false ∷ some false ∷ some false ∷ []);
  answer = reply true;
  heard_enabling = (false, m 5000000) ∷ [];
  third = refresh;
  armed_at = m 5000000;
  give_up = attempt;
  restarted_at = m 5000000;
}

abbrev fresh : S numbers follower args
fresh = begin numbers follower args false controlling

-- Following, as the button asks for it.
abbrev following : S numbers follower args
following = record fresh { control_requested = true; link = enabled; joystick = pressed }

following-IsAccounted : IsAccounted following
unfolding begin
following-IsAccounted = record {
  one_at_a_time = inl refl;
  wanted = inr (inl refl);
  asked = inr refl;
  executing = inr refl;
  logged = inl refl;
}

session_hands_back_example :
    Ends
      (λ l. timed_out ≢ reply true)
      (λ _ l. (l.enabled ≡ false) × (l.enable_requested ≡ false) × (last_on l.sent ≡ false))
      (finished numbers follower args timed_out (
        loop numbers follower args
          (a_turn ∷ a_turn ∷ [])
          (begin numbers follower args false controlling)))
session_hands_back_example =
    session_hands_back numbers follower args false controlling (a_turn ∷ a_turn ∷ []) timed_out refl
      refl refl

targets_under_control_example :
    After
      (Sends numbers follower args a_turn following)
      (turn numbers follower args a_turn following)
targets_under_control_example =
    targets_under_control numbers follower args (arm_approach-TrackedLaws numbers config) a_turn
      following following-IsAccounted

abbrev cancelled : S numbers follower args
cancelled = record following { joystick = record pressed { cancel_pending = true } }

cancel_wins_example :
    let t = refresh_request numbers follower args refresh cancelled in
    (t.control_requested ≡ false)
    × ((cancelled.control_requested ≡ false)
        ⊎ (cancelled.disable_pending ≡ true)
        ⊎ (t.tracker ≡ follower.make (some refresh.now))
          × (t.last_disable_attempt ≡ some refresh.handover.at)
          × Tried numbers follower args refresh.handover cancelled.link t)
cancel_wins_example = cancel_wins numbers follower args refresh cancelled refl refl

abbrev handing_over : S numbers follower args
handing_over = record cancelled {
  control_requested = false;
  disable_pending = true;
  last_disable_attempt = some (m 4000000);
}

pending_is_retried_example :
    let t = refresh_request numbers follower args refresh handing_over in
    (t.control_requested ≡ false)
    × (t.joystick.released ≡ false)
    × ((due numbers follower args refresh.now handing_over.last_disable_attempt ≡ false)
          × (t.disable_pending ≡ true)
          × (t.last_disable_attempt ≡ handing_over.last_disable_attempt)
        ⊎ (due numbers follower args refresh.now handing_over.last_disable_attempt ≡ true)
          × (t.last_disable_attempt ≡ some refresh.retry.at)
          × Tried numbers follower args refresh.retry handing_over.link t)
pending_is_retried_example =
    pending_is_retried numbers follower args refresh handing_over refl refl refl
