-- ===== src/Examples/Yiyou.antt =====
-- Runs of the motor tool: keys, lists of slaves, and a zero that is being written.
use bxi_car_v.Yiyou.Slaves.RoundTrip.{join, slaves_round_trip}
use Prim.Native.String.{String}
use bxi_car_v.Base.{
  ℕ, ◌≤◌, true, if◌then◌else◌, Option, none, some, List, [], ◌∷◌, ◌≡◌, ◌≢◌, refl, arith,
}
use bxi_car_v.Base.Int.{ℤ, pos}
use bxi_car_v.Base.Text.{strip_text}
use package.text.Mathlib.Text.{◌==◌ as str_eq}
use bxi_car_v.Base.Value.{Value, count_items, all_items}
use bxi_car_v.Base.Value.{
  int, float, str, dict, list, nil, cons, Fields, end, field, item, get, pop,
}
use bxi_car_v.Base.Gate.{reject, pass, After}
use mathlib.Core.List.{flatten}
use bxi_car_v.Yiyou.Keys.{read, parse, read_all, read_all_lem}
use bxi_car_v.Yiyou.Lines.{Reads, blocked, at_end, chunk, not_json, poll_all, take_lines}
use bxi_car_v.Yiyou.Lines.Chunks.{outcome, all_bytes, poll_all_lem}
use bxi_car_v.Yiyou.Slaves.{
  ok, parse_slaves, IsFreshList, parse_slaves_sound, parse_part, parse_parts, split, strip, int_of,
}
use bxi_car_v.Yiyou.Calibration.{
  Failure, absent, document, Disk, written, Axis, calibration_document, require_home_records,
  verify_home_records, record_key, axis_at,
}
use bxi_car_v.Yiyou.Calibration.{Lacks, remove_record_before_zero}
use bxi_car_v.Base.{contains}
use bxi_car_v.Base.Value.{Items}
use bxi_car_v.Yiyou.Calibration.Home.{ints_of, float_of, home_checked}
use bxi_car_v.Yiyou.Ready.{good, Poll, wait_ready, read_ready, axis_from_json, sorted, same_list}
use bxi_car_v.Yiyou.Ready.Axes.{HasScale, ready_axes}
use bxi_car_v.Yiyou.Terminal.{
  Terminal, Round, send, any_key, handle_backend_events, handle_event, apply_done_event,
  act_on_keys, selected_slave, run_jog, jog_round, zeroing_slave, zeroing, hold, again,
}
use bxi_car_v.Yiyou.Terminal.Safety.{Sparing, jog_round-Sparing}
use bxi_car_v.Yiyou.Terminal.Pending.{zero_in_flight}
use bxi_car_v.Examples.Micro.{numbers}
use bxi_car_v.Examples.Tracking.{m}

abbrev escape_up : List (List ℕ)
escape_up = (27 ∷ []) ∷ (b'[' ∷ []) ∷ (b'A' ∷ 27 ∷ []) ∷ []

read_all_lem_example : read_all escape_up [] ≡ parse (flatten escape_up)
read_all_lem_example = read_all_lem escape_up

-- An object in two polls, the first of which ends inside it; then a line that is not JSON.
abbrev cut_line : List Reads
cut_line = chunk b'{' [] blocked ∷ chunk b'}' (b'\n' ∷ []) (chunk b'[' (b'\n' ∷ []) at_end) ∷ []

abbrev decoded : List ℕ → String
decoded [] = ""
decoded (b ∷ []) = "["
decoded (b ∷ c ∷ bs) = "{}"

abbrev parsed_json : String → Option (Value ℤ)
parsed_json line = if str_eq line "{}" then some (dict end) else none

poll_all_lem_example :
    outcome (poll_all decoded parsed_json cut_line [])
    ≡ outcome (take_lines decoded parsed_json [] (all_bytes cut_line))
poll_all_lem_example = poll_all_lem decoded parsed_json cut_line

joined_line :
    poll_all decoded parsed_json
      (chunk b'{' [] blocked ∷ chunk b'}' (b'\n' ∷ b'[' ∷ []) blocked ∷ [])
      []
    ≡ pass (end ∷ []) (b'[' ∷ [])
unfolding poll_all strip_text
joined_line = refl

second_line : poll_all decoded parsed_json cut_line [] ≡ reject (not_json "[") []
unfolding poll_all strip_text
second_line = refl

abbrev text : List ℕ
text = b'1' ∷ b',' ∷ b' ' ∷ b'1' ∷ b'9' ∷ b'9' ∷ []

parsed : parse_slaves text ≡ ok (1 ∷ 199 ∷ [])
unfolding parse_slaves strip parse_parts split parse_part int_of
parsed = refl

parse_slaves_sound_example : IsFreshList [] (1 ∷ 199 ∷ []) × (1 ≤ 2)
parse_slaves_sound_example = parse_slaves_sound text parsed

abbrev axis : Axis ℤ
axis = record {
  slave = pos 3;
  identity = pos 1 ∷ pos 2 ∷ pos 3 ∷ pos 4 ∷ [];
  scale = m 131072;
  position = pos 0;
  current_permille = none;
  rated_current_ma = pos 0;
  position_valid = true;
}

abbrev records : Fields ℤ
records =
    field "eth0:3"
      (dict (
        field "identity"
          (list
            (cons (int (pos 1)) (cons (int (pos 2)) (cons (int (pos 3)) (cons (int (pos 4)) nil)))))
          (field "scale" (float (m 131072)) end)))
      end

checked : verify_home_records numbers "eth0" (3 ∷ []) (axis ∷ []) records ≡ true
unfolding verify_home_records item record_key
checked = refl

home_checked_example :
    ((let three : ℕ = 3 in three ≢ 4))
    × (d : Fields ℤ) × (a : Axis ℤ) × (item (record_key "eth0" 3) records ≡ some (dict d))
    × (axis_at numbers (pos 3) (axis ∷ []) ≡ some a)
    × ((xs : Items ℤ) × (item "identity" d ≡ some (list xs))
        × (ints_of numbers xs ≡ some a.identity))
    × (x : Value ℤ) × (f : ℤ) × (item "scale" d ≡ some x)
    × (float_of numbers x ≡ some f)
    × (numbers.eq f a.scale ≡ true)
home_checked_example = home_checked numbers "eth0" 3 (3 ∷ []) (axis ∷ []) records checked refl

abbrev waiting : Terminal ℤ
waiting = record {
  interface = "eth0";
  slaves = 3 ∷ [];
  axes = axis ∷ [];
  selected_index = 0;
  busy = none;
  buffer = [];
  file = absent;
  sent = [];
}

-- A round with given bytes and events.
abbrev round : Option (List ℕ) → List (Fields ℤ × Disk) → Round ℤ
round bytes events = record {
  is_tty = true;
  bytes = bytes;
  events = some events;
  exit_code = none;
  running = true;
  input_open = true;
  disk = written;
}

abbrev z : Round ℤ
z = round (some (b'z' ∷ [])) []

jog_round-Sparing_example : After (Sparing numbers waiting) (jog_round numbers z waiting)
jog_round-Sparing_example = jog_round-Sparing numbers z waiting

abbrev rounds : List (Round ℤ)
rounds =
    round none ((field "event" (str "done") (field "command" (str "hold") end), written) ∷ [])
    ∷ z
    ∷ []

abbrev zeroing_state : Terminal ℤ
zeroing_state = record waiting {
  busy = some (zeroing_slave 3);
  file = document (calibration_document numbers end);
  sent = zeroing 3 ∷ hold ∷ [];
}

zero_sent : run_jog numbers (round none []) rounds waiting ≡ pass again zeroing_state
unfolding run_jog send jog_round any_key read handle_backend_events handle_event get item
    apply_done_event act_on_keys remove_record_before_zero pop selected_slave
zero_sent = refl

zero_in_flight_example :
    (contains 3 zeroing_state.slaves ≡ true)
    × Lacks numbers "eth0" 3 zeroing_state.file
    × ((homed : List ℕ)
        → contains 3 homed ≡ true
        → (why : Failure) × (require_home_records numbers "eth0" homed zeroing_state.file
            ≡ reject why zeroing_state.file))
zero_in_flight_example =
    zero_in_flight numbers (round none []) rounds waiting 3 (omega arith) zero_sent refl

abbrev reported : Fields ℤ
reported = field "event" (str "ready") (
    field "axes"
      (list (
        cons
          (dict (
            field "slave" (int (pos 3)) (
              field "identity"
                (list (
                  cons (int (pos 1))
                    (cons (int (pos 2)) (cons (int (pos 3)) (cons (int (pos 4)) nil)))))
                (field "scale" (float (m 131072)) (field "position" (int (pos 0)) end)))))
          nil))
      end)

abbrev polls : List (Poll numbers)
polls =
    record { in_time = true; events = some []; exit_code = none }
    ∷ record { in_time = true; events = some (reported ∷ []); exit_code = none }
    ∷ []

is_ready : wait_ready numbers (3 ∷ []) polls ≡ some (good (axis ∷ []))
unfolding wait_ready get item read_ready axis_from_json sorted same_list count_items all_items
is_ready = refl

ready_axes_example :
    (a : Axis ℤ) × (axis_at numbers (pos 3) (axis ∷ []) ≡ some a) × HasScale numbers a
ready_axes_example = ready_axes numbers (3 ∷ []) polls 3 is_ready refl

slaves_round_trip_example : parse_slaves (join (4 ∷ 17 ∷ 199 ∷ [])) ≡ ok (4 ∷ 17 ∷ 199 ∷ [])
slaves_round_trip_example = slaves_round_trip 4 (17 ∷ 199 ∷ []) (
  omega arith,
  omega arith,
  refl,
  (omega arith, omega arith, refl, (omega arith, omega arith, refl, tt)),
)
