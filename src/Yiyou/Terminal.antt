-- ===== src/Yiyou/Terminal.antt =====
-- The interactive loops of yiyou_control.py: `select_delta`, `apply_done_event`,
-- `handle_backend_events`, `run_jog` and `run_home`. A round of a loop takes what the operating
-- system and the backend did in it; the state holds what `TerminalState` and `KeyReader` keep, the
-- calibration file, and the log of what was sent to the backend, the latest first. The texts that
-- are only rendered (`status`, `last_done`, `position_error`) are left out.
pub mod Safety
pub mod Pending
use bxi_car_v.Base.Text.{codes}
use bxi_car_v.Base.{
  ℕ, suc, zero, ◌+◌, ◌-◌, ◌%◌, Bool, true, false, ◌&&◌, ◌||◌, not, Option, none, some, List, [],
  ◌∷◌, ◌≡◌, refl, arith, ltb, ◌==◌, length, String, if◌then◌else◌,
}
use bxi_car_v.Base.Int.{ℤ, pos, negsuc, eq_ℤ}
use bxi_car_v.Base.Value.{
  Value, null, bool, int, float, str, list, dict, Fields, is_str, item, get, get_or,
}
use bxi_car_v.Base.Numeric.{Numeric}
use bxi_car_v.Base.Gate.{Gate, reject, pass, ◌>>=◌, ◌>>◌}
use bxi_car_v.Yiyou.Keys.{Key, ctrl_c, quit, zero_key, up, down, right, left, read}
use bxi_car_v.Yiyou.Slaves.{int_of}
use bxi_car_v.Yiyou.Calibration.{
  Failure, user_error, bad_value, os_error, end_of_input, interrupted, Stored, Disk, Axis, axis_at,
  remove_record_before_zero, persist_record,
}

-- A line to the backend's input, or the SIGINT of `signal_interrupt`. A step has its slave and
-- whether its sign is +1.
pub data Command : Type 0 where
  hold home leave interrupt : Command
  step : ℕ → Bool → Command
  zeroing : ℕ → Command

-- `busy`
pub data Busy : Type 0 where
  holding homing : Busy
  stepping zeroing_slave : ℕ → Busy

pub record Terminal (F : Type 0) : Type 0 where
  pub interface : String
  pub slaves : List ℕ
  pub axes : List (Axis F)
  pub selected_index : ℕ
  pub busy : Option Busy
  pub buffer : List ℕ
  pub file : Stored F
  pub sent : List Command

-- What one round meets: whether stdin is a terminal, the bytes that it has (`none` if none within
-- the timeout), the backend's events, each with how a write during it ends (`none` if its output is
-- no JSON object), its exit code, whether it runs and its input is open, and how the write before a
-- zero ends.
pub record Round (F : Type 0) : Type 0 where
  pub is_tty : Bool
  pub bytes : Option (List ℕ)
  pub events : Option (List (Fields F × Disk))
  pub exit_code : Option ℤ
  pub running : Bool
  pub input_open : Bool
  pub disk : Disk

pub data Next : Type 0 where
  again finished : Next

-- `slaves[index]`, where the index is in range.
unfoldable pub nth : ℕ → List ℕ → ℕ
nth i [] = 0
nth zero (x ∷ xs) = x
nth (suc i) (x ∷ xs) = nth i xs

-- `any(key in wanted for key in keys)`
unfoldable pub any_key : (Key → Bool) → List Key → Bool
any_key wanted [] = false
any_key wanted (k ∷ ks) = wanted k || any_key wanted ks

abbrev pub is_leaving : Key → Bool
is_leaving ctrl_c = true
is_leaving quit = true
is_leaving _ = false

abbrev pub is_ctrl_c : Key → Bool
is_ctrl_c ctrl_c = true
is_ctrl_c _ = false

abbrev pub is_busy : Option Busy → Bool
is_busy none = false
is_busy (some b) = true

module _ (n : Numeric) where
  open n use {F, is_finite, trunc}

  abbrev pub Act : Type 0 → Type 0
  Act A = Terminal F → Gate Failure (Terminal F) A

  -- `int(value)`, `none` being its exceptions.
  int_value : Value F → Option ℤ
  unfolding codes
  int_value (int z) = some z
  int_value (bool true) = some (pos 1)
  int_value (bool false) = some (pos 0)
  int_value (float f) = if is_finite f then some (trunc f) else none
  int_value (str s) = int_of (codes s)
  int_value _ = none

  -- `isinstance(value, int)`, with the int.
  an_int : Value F → Option ℤ
  an_int (int z) = some z
  an_int (bool true) = some (pos 1)
  an_int (bool false) = some (pos 0)
  an_int _ = none

  -- `value is True` of a value that may be missing.
  true_or : Option (Value F) → Bool → Bool
  true_or none default = default
  true_or (some (bool b)) default = b
  true_or (some _) default = false

  need : {A : Type 0} → Option A → Act A
  need none s = reject bad_value s
  need (some a) s = pass a s

  -- `select_delta(+1)` and `select_delta(-1)`: Python's `%` is at least 0.
  unfoldable pub select_next : Terminal F → Terminal F
  select_next s = record s { selected_index = (s.selected_index + 1) % length s.slaves }

  unfoldable pub select_previous : Terminal F → Terminal F
  select_previous s = record s {
    selected_index = (s.selected_index + (length s.slaves - 1)) % length s.slaves;
  }

  unfoldable pub selected_slave : Terminal F → ℕ
  unfolding nth
  selected_slave s = nth s.selected_index s.slaves

  -- `axes[slave] = axis` for a slave that has one.
  put_axis : ℤ → Axis F → List (Axis F) → List (Axis F)
  put_axis slave axis [] = []
  put_axis slave axis (a ∷ rest) =
      if eq_ℤ a.slave slave then axis ∷ rest else a ∷ put_axis slave axis rest

  sent_if : Bool → Command → Act (Unit {0})
  sent_if true c s = pass tt (record s { sent = c ∷ s.sent })
  sent_if false c s = reject user_error s

  -- `send`: the backend must run and its input be open.
  unfoldable pub send : Round F → Command → Act (Unit {0})
  unfolding sent_if
  send r c = sent_if (r.running && r.input_open) c

  -- `signal_interrupt()`, then an exception.
  unfoldable pub interrupt_with : {A : Type 0} → Round F → Failure → Act A
  interrupt_with r why s =
      reject why (if r.running then record s { sent = interrupt ∷ s.sent } else s)

  -- A function of the calibration file, in the loop.
  on_file : Gate Failure (Stored F) (Unit {0}) → Act (Unit {0})
  on_file (reject why f) s = reject why (record s { file = f })
  on_file (pass x f) s = pass tt (record s { file = f })

  -- The axis that `done` reports on, if it is a known one.
  known_axis : Option ℤ → Terminal F → Option (Axis F)
  known_axis none s = none
  known_axis (some slave) s = axis_at n slave s.axes

  moved : Fields F → Axis F → Act (Unit {0})
  unfolding need int_value true_or put_axis
  moved e old = do
    position ← need (int_value (get_or "position" (int old.position) e))
    λ s. pass tt (record s {
      axes =
          put_axis old.slave
            (record old {
              position = position;
              position_valid = true_or (item "position_valid" e) old.position_valid;
            })
            s.axes;
    })

  update_axis : Fields F → Option (Axis F) → Act (Unit {0})
  unfolding moved
  update_axis e none s = pass tt s
  update_axis e (some old) s = moved e old s

  at_home : List (Axis F) → List (Axis F)
  at_home [] = []
  at_home (a ∷ rest) = record a { position = pos 0 } ∷ at_home rest

  -- `persist_record` for the slave of a `done`; an axis has a positive slave.
  keep_record : Disk → ℤ → Axis F → Act (Unit {0})
  unfolding on_file
  keep_record disk (pos slave) axis s =
      on_file (persist_record n disk s.interface slave axis s.file) s
  keep_record disk (negsuc k) axis s = reject bad_value s

  zero_done : Fields F → Disk → Act (Unit {0})
  unfolding need int_value keep_record known_axis
  zero_done e disk = do
    value ← need (item "slave" e)
    slave ← need (int_value value)
    axis ← λ s. need (known_axis (some slave) s) s
    keep_record disk slave axis

  command_done : Fields F → Disk → Act (Unit {0})
  unfolding zero_done at_home
  command_done e disk s =
      if is_str "zero" (get "command" e)
      then zero_done e disk s
      else if is_str "home" (get "command" e)
      then pass tt (record s { axes = at_home s.axes })
      else pass tt s

  idle : Act (Unit {0})
  idle s = pass tt (record s { busy = none })

  unfoldable pub apply_done_event : Fields F → Disk → Act (Unit {0})
  unfolding an_int known_axis update_axis command_done idle
  apply_done_event e disk = do
    λ s. update_axis e (known_axis (an_int (get "slave" e)) s) s
    command_done e disk
    idle

  -- A `feedback`. The keys are read in the order of the source.
  fed_back : Fields F → Act (Unit {0})
  unfolding need int_value known_axis put_axis true_or
  fed_back e = do
    value ← need (item "slave" e)
    slave ← need (int_value value)
    old ← λ s. elim (known_axis (some slave) s) [ none ↦ reject user_error s | some a ↦ pass a s ]
    position_item ← need (item "position" e)
    position ← need (int_value position_item)
    current_item ← need (item "current_permille" e)
    current ← need (int_value current_item)
    rated_item ← need (item "rated_current_ma" e)
    rated ← need (int_value rated_item)
    λ s. pass tt (record s {
      axes =
          put_axis slave
            (record old {
              position = position;
              current_permille = some current;
              rated_current_ma = rated;
              position_valid = true_or (item "position_valid" e) old.position_valid;
            })
            s.axes;
    })

  -- One turn of the loop of `handle_backend_events`.
  unfoldable pub handle_event : Fields F → Disk → Act (Unit {0})
  unfolding fed_back idle
  handle_event e disk s =
      if is_str "error" (get "event" e)
      then reject user_error s
      else if is_str "done" (get "event" e)
      then apply_done_event e disk s
      else if is_str "rejected" (get "event" e)
      then idle s
      else if is_str "feedback" (get "event" e)
      then fed_back e s
      else pass tt s

  handle_events : List (Fields F × Disk) → Act (Unit {0})
  handle_events [] s = pass tt s
  handle_events ((e, disk) ∷ es) s = (handle_event e disk >> handle_events es) s

  -- The test of the exit code after the events.
  exited : Bool → Option ℤ → Act (Unit {0})
  exited saw_event none s = pass tt s
  exited true (some code) s = pass tt s
  exited false (some code) s = reject user_error s

  pub handle_polled : Option (List (Fields F × Disk)) → Option ℤ → Act (Unit {0})
  unfolding handle_events exited
  handle_polled none exit_code s = reject user_error s
  handle_polled (some []) exit_code s = exited false exit_code s
  handle_polled (some (e ∷ es)) exit_code s = (handle_events (e ∷ es) >> exited true exit_code) s

  unfoldable pub handle_backend_events : Round F → Act (Unit {0})
  unfolding handle_polled
  handle_backend_events r = handle_polled r.events r.exit_code

  keys_of : List ℕ → Act (List Key)
  keys_of bytes s = pass (read bytes s.buffer).0 (record s { buffer = (read bytes s.buffer).1 })

  -- `reader.read()`: no bytes from a ready terminal are its end.
  read_ready : Option (List ℕ) → Act (List Key)
  unfolding keys_of
  read_ready none s = keys_of [] s
  read_ready (some []) s = reject end_of_input s
  read_ready (some (b ∷ bs)) s = keys_of (b ∷ bs) s

  unfoldable pub read_keys : Round F → Act (List Key)
  unfolding read_ready
  read_keys r = read_ready r.bytes

  set_busy : Busy → Act (Unit {0})
  set_busy b s = pass tt (record s { busy = some b })

  step_slave : Round F → Bool → Act (Unit {0})
  unfolding set_busy
  step_slave r sign s =
      (send r (step (selected_slave s) sign) >> set_busy (stepping (selected_slave s))) s

  zero_slave : Round F → Act (Unit {0})
  unfolding set_busy on_file
  zero_slave r s =
      (do
        on_file (remove_record_before_zero n r.disk s.interface (selected_slave s) s.file)
        send r (zeroing (selected_slave s))
        set_busy (zeroing_slave (selected_slave s)))
        s

  -- The loop over the keys, which a command ends.
  unfoldable pub act_on_keys : Round F → List Key → Act (Unit {0})
  unfolding step_slave zero_slave
  act_on_keys r [] s = pass tt s
  act_on_keys r (left ∷ ks) s = act_on_keys r ks (select_previous s)
  act_on_keys r (right ∷ ks) s = act_on_keys r ks (select_next s)
  act_on_keys r (up ∷ ks) s = step_slave r true s
  act_on_keys r (down ∷ ks) s = step_slave r false s
  act_on_keys r (zero_key ∷ ks) s = zero_slave r s
  act_on_keys r (quit ∷ ks) s = act_on_keys r ks s
  act_on_keys r (ctrl_c ∷ ks) s = act_on_keys r ks s

  next_is : Next → Act Next
  next_is v s = pass v s

  unfoldable pub discard_pending : Act (Unit {0})
  discard_pending s = pass tt (record s { buffer = [] })

  -- A round of `run_jog` that begins while a command is under way, and one that does not.
  unfoldable pub jog_busy : Round F → List Key → Act Next
  unfolding discard_pending next_is
  jog_busy r keys s =
      if any_key is_leaving keys
      then interrupt_with r interrupted s
      else (do discard_pending; handle_backend_events r; next_is again) s

  quit_idle : Round F → Act Next
  unfolding next_is
  quit_idle r = send r leave >> next_is finished

  act_again : Round F → List Key → Act Next
  unfolding next_is
  act_again r keys = act_on_keys r keys >> next_is again

  -- What follows the events in a round without a command under way.
  idle_keys : Round F → List Key → Act Next
  unfolding quit_idle act_again
  idle_keys r keys s =
      if any_key is_leaving keys
      then (if any_key is_ctrl_c keys then interrupt_with r interrupted s else quit_idle r s)
      else act_again r keys s

  unfoldable pub jog_idle : Round F → List Key → Act Next
  unfolding idle_keys
  jog_idle r keys = handle_backend_events r >> idle_keys r keys

  jog_keys : Round F → List Key → Act Next
  unfolding jog_busy jog_idle
  jog_keys r keys s = if is_busy s.busy then jog_busy r keys s else jog_idle r keys s

  -- One round of the loop of `run_jog`. Reading the keys leaves `busy` as it was.
  unfoldable pub jog_round : Round F → Act Next
  unfolding jog_keys read_keys
  jog_round r s = if not r.is_tty then reject end_of_input s else (read_keys r >>= jog_keys r) s

  -- One round of the loop of `run_home`.
  unfoldable pub home_round : Round F → Act Next
  unfolding next_is
  home_round r s =
      if not r.is_tty
      then reject end_of_input s
      else (read_keys r >>= λ keys t.
            if any_key is_leaving keys
            then (if is_busy s.busy || any_key is_ctrl_c keys
                then interrupt_with r interrupted t
                else (send r leave >> next_is finished) t)
            else (handle_backend_events r >> next_is again) t)
          s

  continue : (Round F → Act Next) → Next → List (Round F) → Act Next
  continue turn finished rs s = pass finished s
  continue turn again [] s = pass again s
  continue turn again (r ∷ rs) s = (turn r >>= λ v. continue turn v rs) s

  -- `run_jog` and `run_home`, as far as the rounds go.
  unfoldable pub run_jog : Round F → List (Round F) → Act Next
  unfolding set_busy continue
  run_jog first rs = do send first hold; set_busy holding; continue jog_round again rs

  unfoldable pub run_home : Round F → List (Round F) → Act Next
  unfolding set_busy continue
  run_home first rs = do send first home; set_busy homing; continue home_round again rs
