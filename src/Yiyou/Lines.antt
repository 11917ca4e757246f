-- ===== src/Yiyou/Lines.antt =====
-- `poll_events` of yiyou_control.py: the backend's lines, each a JSON object. The process has a
-- standard output, and a byte is a number below 256. `decode` is the decoding of UTF-8, with what it
-- puts for errors, and `loads` is `json.loads`, `none` being JSONDecodeError.
use Prim.Native.String.{String}
use bxi_car_v.Base.{
  ℕ, Bool, true, false, Option, none, some, List, [], ◌∷◌, ◌++◌, ◌⊎◌, inl, inr, ◌==◌,
}
use bxi_car_v.Base.Gate.{Gate, reject, pass}
use bxi_car_v.Base.Text.{strip_text}
use bxi_car_v.Base.Value.{Value, Fields, as_dict}
pub mod Chunks

pub data Trouble : Type 0 where
  not_json not_object : String → Trouble

-- What `os.read` gives until the poll ends: chunks, which are not empty, and then BlockingIOError or
-- the end of the stream.
pub data Reads : Type 0 where
  blocked at_end : Reads
  chunk : ℕ → List ℕ → Reads → Reads

-- The state is the buffer.
abbrev pub Polled : Type 0 → Type 0
Polled F = Gate Trouble (List ℕ) (List (Fields F))

pub joined : {F : Type 0} → List (Fields F) → Polled F → Polled F
joined events (reject why rest) = reject why rest
joined events (pass later rest) = pass (events ++ later) rest

-- What follows sees the buffer; its events come after.
pub continue : {F : Type 0} → Polled F → (List ℕ → Polled F) → Polled F
continue (reject why rest) k = reject why rest
continue (pass events rest) k = joined events (k rest)

-- What one line does, given what the bytes after it do. A raise leaves these in the buffer.
pub after_line : {F : Type 0} → Trouble ⊎ Option (Fields F) → List ℕ → Polled F → Polled F
unfolding joined
after_line (inl why) bs later = reject why bs
after_line (inr none) bs later = later
after_line (inr (some event)) bs later = joined (event ∷ []) later

module _ {F : Type 0} (decode : List ℕ → String) (loads : String → Option (Value F)) where
  event_in : String → Trouble ⊎ Option (Fields F)
  event_in line = elim (loads line) [
    | none ↦ inl (not_json line)
    | some value ↦ elim (as_dict value) [
      | none ↦ inl (not_object line)
      | some event ↦ inr (some event)
    ]
  ]

  -- One line, without its end: nothing if it is blank, else its event or what is wrong with it.
  pub read_line : List ℕ → Trouble ⊎ Option (Fields F)
  unfolding event_in
  read_line raw_line = elim (strip_text (decode raw_line)) [
    | String.[] ↦ inr none
    | String.◌∷◌ c cs ↦ event_in (String.◌∷◌ c cs)
  ]

  -- The loop over the lines of the buffer, `line` being the bytes since the last line's end.
  pub take_lines : List ℕ → List ℕ → Polled F
  unfolding read_line after_line
  take_lines line [] = pass [] line
  take_lines line (b ∷ bs) = elim (b == b'\n') [
    | true ↦ after_line (read_line line) bs (take_lines [] bs)
    | false ↦ take_lines (line ++ b ∷ []) bs
  ]

  pub poll_events : Reads → List ℕ → Polled F
  unfolding take_lines continue
  poll_events blocked buffer = pass [] buffer
  poll_events at_end buffer = pass [] buffer
  poll_events (chunk b bs more) buffer =
      continue (take_lines [] (buffer ++ b ∷ bs)) (poll_events more)

  -- Poll after poll, with all their events.
  unfoldable pub poll_all : List Reads → List ℕ → Polled F
  unfolding poll_events continue
  poll_all [] buffer = pass [] buffer
  poll_all (reads ∷ more) buffer = continue (poll_events reads buffer) (poll_all more)
