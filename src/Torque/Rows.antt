-- ===== src/Torque/Rows.antt =====
-- The rows of a recording in arm_torque_report.py: `parse_float`, `iter_rows`, `calculated_nm`,
-- `motor_value` and `choose_motor_units`. A table is what `csv.DictReader` gives of the file.
pub mod Feedback
use Prim.Native.String.{◌++◌}
use text.Mathlib.Text.{◌==◌ as str_eq}
use bxi_car_v.Base.{
  Bool, true, false, ◌&&◌, ◌||◌, not, Option, none, some, List, [], ◌∷◌, String, if◌then◌else◌,
}
use bxi_car_v.Base.Text.{strip_text}
use bxi_car_v.Base.Numeric.{Numeric}

-- `MOTORS`
pub data Motor : Type 0 where
  m1 m2 m3 m4 : Motor

pub data Units : Type 0 where
  nm permille : Units

-- A row has its cells by column; a short row lacks the last ones.
abbrev pub Row : Type 0
Row = List (String × String)

-- `reader.fieldnames`, `none` for an empty file, and the rows.
pub record Table : Type 0 where
  pub fieldnames : Option (List String)
  pub rows : List Row

-- `row.get(column)`
unfoldable pub cell : String → Row → Option String
cell column [] = none
cell column ((k, v) ∷ row) = let rest = cell column row in if str_eq k column then some v else rest

-- f"motor{motor}" and the rest of a column's name.
unfoldable pub column : Motor → String → String
column m1 rest = "motor1" ++ rest
column m2 rest = "motor2" ++ rest
column m3 rest = "motor3" ++ rest
column m4 rest = "motor4" ++ rest

abbrev pub same_motor : Motor → Motor → Bool
same_motor m1 m1 = true
same_motor m2 m2 = true
same_motor m3 m3 = true
same_motor m4 m4 = true
same_motor _ _ = false

unfoldable pub has_column : String → List String → Bool
has_column c [] = false
has_column c (n ∷ ns) = str_eq n c || has_column c ns

module _ (n : Numeric) where
  open n use {F, lt, le, is_finite, of_text, lit, mul, div}

  if_finite : Option F → Option F
  if_finite none = none
  if_finite (some f) = if is_finite f then some f else none

  unfoldable pub parse_float : Option String → Option F
  unfolding if_finite
  parse_float none = none
  parse_float (some value) =
      if str_eq (strip_text value) "" then none else if_finite (of_text (strip_text value))

  -- The torque that two readings give.
  convert : Option F → Option F → Option F
  convert (some p) (some rated) =
      if lt (lit 0 0) rated then some (div (mul p rated) (lit 1000000 0)) else none
  convert _ _ = none

  unfoldable pub calculated_nm : Row → Motor → Option F
  unfolding convert
  calculated_nm row motor =
      convert (parse_float (cell (column motor "_permille") row))
        (parse_float (cell (column motor "_rated_mnm") row))

  -- Whether a row has raw feedback that cannot be converted.
  unconvertible : Option F → Option F → Bool
  unconvertible none rated = false
  unconvertible (some p) none = true
  unconvertible (some p) (some rated) = le rated (lit 0 0)

  or_calculated : Option F → Option F → Option F
  or_calculated none calculated = calculated
  or_calculated (some f) calculated = some f

  unfoldable pub motor_value : Row → Motor → Units → Option F
  unfolding or_calculated
  motor_value row motor permille = parse_float (cell (column motor "_permille") row)
  motor_value row motor nm =
      or_calculated (parse_float (cell (column motor "_nm") row)) (calculated_nm row motor)

  -- The rows with a time.
  timed : List Row → List (F × Row)
  timed [] = []
  timed (row ∷ rows) = elim (parse_float (cell "elapsed_s" row)) [
    | none ↦ timed rows
    | some elapsed ↦ (elapsed, row) ∷ timed rows
  ]

  rows_under : Option (List String) → List Row → List (F × Row)
  unfolding timed
  rows_under none rows = []
  rows_under (some names) rows = if has_column "elapsed_s" names then timed rows else []

  unfoldable pub iter_rows : Table → List (F × Row)
  unfolding rows_under
  iter_rows table = rows_under table.fieldnames table.rows

  refine_units : Row → (Motor → Units) → Motor → Units
  unfolding unconvertible
  refine_units row units motor =
      if unconvertible (parse_float (cell (column motor "_permille") row))
        (parse_float (cell (column motor "_rated_mnm") row))
      then permille
      else units motor

  units_after : List (F × Row) → (Motor → Units) → Motor → Units
  unfolding refine_units
  units_after [] units = units
  units_after ((elapsed, row) ∷ rows) units = units_after rows (refine_units row units)

  unfoldable pub choose_motor_units : Table → Motor → Units
  unfolding units_after
  choose_motor_units table = units_after (iter_rows table) (λ motor. nm)
