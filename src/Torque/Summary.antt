-- ===== src/Torque/Summary.antt =====
-- `class Summary`, `max_value`, `min_value`, `max_abs` and `summarize` of arm_torque_report.py.
pub mod Peaks
use bxi_car_v.Base.{
  ℕ, suc, Bool, true, false, ◌&&◌, not, Option, none, some, List, [], ◌∷◌, ltb, if◌then◌else◌,
}
use bxi_car_v.Base.Int.{ℤ, pos, ◌+ℤ◌}
use bxi_car_v.Base.Numeric.{Numeric}
use bxi_car_v.Torque.Rows.{
  Motor, m1, m2, m3, m4, Units, nm, permille, Row, Table, cell, same_motor, parse_float,
  motor_value, iter_rows, choose_motor_units,
}

-- What `self.motors` holds for a motor.
pub record Entry (F : Type 0) : Type 0 where
  pub unit : Units
  pub valid_samples : ℕ
  pub peak_abs : Option F
  pub peak_positive : Option F
  pub peak_negative : Option F

pub record Summary (F : Type 0) : Type 0 where
  pub row_count : ℕ
  pub start_elapsed : Option F
  pub end_elapsed : Option F
  pub start_wall_time : Option F
  pub end_wall_time : Option F
  pub dropped_samples : ℤ
  pub motors : Motor → Entry F

-- `output_estimate`
pub record Estimate (F : Type 0) : Type 0 where
  pub gear_ratio : ℕ
  pub available : Bool
  pub valid_samples : ℕ
  pub peak_abs : Option F
  pub peak_positive : Option F
  pub peak_negative : Option F

-- `INFERRED_GEAR_RATIOS`
abbrev pub gear_ratio_of : Motor → ℕ
gear_ratio_of m1 = 160
gear_ratio_of m2 = 160
gear_ratio_of m3 = 160
gear_ratio_of m4 = 101

abbrev is_nm : Units → Bool
is_nm nm = true
is_nm permille = false

-- `motor` in a dict by motors, with a new value.
abbrev pub at_motor {ℓ} : {A : Type ℓ} → Motor → A → (Motor → A) → Motor → A
at_motor motor a f other = if same_motor motor other then a else f other

module _ (n : Numeric) where
  open n use {F, lt, le, abs, lit, sub, mul, trunc}

  unfoldable pub max_value : Option F → F → F
  max_value none candidate = candidate
  max_value (some current) candidate = if lt current candidate then candidate else current

  unfoldable pub min_value : Option F → F → F
  min_value none candidate = candidate
  min_value (some current) candidate = if lt candidate current then candidate else current

  unfoldable pub max_abs : Option F → F → F
  max_abs none candidate = candidate
  max_abs (some current) candidate = if lt (abs current) (abs candidate) then candidate else current

  abbrev pub fresh_entry : Units → Entry F
  fresh_entry unit = record {
    unit = unit;
    valid_samples = 0;
    peak_abs = none;
    peak_positive = none;
    peak_negative = none;
  }

  -- `__init__`
  abbrev pub new : (Motor → Units) → Summary F
  new units = record {
    row_count = 0;
    start_elapsed = none;
    end_elapsed = none;
    start_wall_time = none;
    end_wall_time = none;
    dropped_samples = pos 0;
    motors = λ motor. fresh_entry (units motor);
  }

  dropped_of : Option F → ℤ
  dropped_of none = pos 0
  dropped_of (some d) = if lt (lit 0 0) d then trunc d else pos 0

  first_of : {A B : Type 0} → Option A → B → B → B
  first_of none first later = first
  first_of (some a) first later = later

  or_kept : Option F → Option F → Option F
  or_kept none kept = kept
  or_kept (some a) kept = some a

  unfoldable pub update_time : F → Row → Summary F → Summary F
  unfolding dropped_of first_of or_kept
  update_time elapsed row s =
      let wall = parse_float n (cell "wall_time_s" row) in
      record s {
        row_count = suc s.row_count;
        dropped_samples =
            s.dropped_samples +ℤ dropped_of (parse_float n (cell "dropped_samples" row));
        start_elapsed = first_of s.start_elapsed (some elapsed) s.start_elapsed;
        start_wall_time = first_of s.start_elapsed wall s.start_wall_time;
        end_elapsed = some elapsed;
        end_wall_time = or_kept wall s.end_wall_time;
      }

  -- `update_motor` on the entry of its motor.
  unfoldable pub update_entry : Option F → Entry F → Entry F
  update_entry none e = e
  update_entry (some value) e = record e {
    valid_samples = suc e.valid_samples;
    peak_abs = some (max_abs e.peak_abs value);
    peak_positive = some (max_value e.peak_positive value);
    peak_negative = some (min_value e.peak_negative value);
  }

  unfoldable pub update_motor : Motor → Option F → Summary F → Summary F
  unfolding update_entry
  update_motor motor value s = record s {
    motors = at_motor motor (update_entry value (s.motors motor)) s.motors;
  }

  -- One turn of the loop of `summarize`.
  unfoldable pub add_row : (Motor → Units) → F × Row → Summary F → Summary F
  unfolding update_time update_motor
  add_row units (elapsed, row) s = update_motor m4 (motor_value n row m4 (units m4)) (
      update_motor m3 (motor_value n row m3 (units m3)) (
        update_motor m2 (motor_value n row m2 (units m2))
          (update_motor m1 (motor_value n row m1 (units m1)) (update_time elapsed row s))))

  unfoldable pub add_rows : (Motor → Units) → List (F × Row) → Summary F → Summary F
  unfolding add_row
  add_rows units [] s = s
  add_rows units (r ∷ rs) s = add_rows units rs (add_row units r s)

  -- `summarize(path, units)`
  unfoldable pub summarize : (Motor → Units) → Table → Summary F
  unfolding add_rows
  summarize units table = add_rows units (iter_rows n table) (new units)

  scaled : Bool → ℕ → Option F → Option F
  scaled false ratio peak = none
  scaled true ratio none = none
  scaled true ratio (some f) = some (mul f (lit ratio 0))

  unfoldable pub output_estimate : Motor → Summary F → Estimate F
  unfolding scaled
  output_estimate motor s =
      let source = s.motors motor in
      let available = is_nm source.unit && ltb 0 source.valid_samples in
      let ratio = gear_ratio_of motor in
      record {
        gear_ratio = ratio;
        available = available;
        valid_samples = if available then source.valid_samples else 0;
        peak_abs = scaled available ratio source.peak_abs;
        peak_positive = scaled available ratio source.peak_positive;
        peak_negative = scaled available ratio source.peak_negative;
      }

  duration_of : Option F → Option F → Option F
  duration_of (some first) (some last) = some (sub last first)
  duration_of _ _ = none

  -- `duration_s` of `as_dict`, whose other values are constants and the fields as they are.
  unfoldable pub duration : Summary F → Option F
  unfolding duration_of
  duration s = duration_of s.start_elapsed s.end_elapsed
