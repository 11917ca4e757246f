-- ===== src/Torque/Rows/Feedback.antt =====
-- The choice of a motor's unit in arm_torque_report.py drops no feedback.
use bxi_car_v.Base.{
  true, false, Option, none, some, List, [], ◌∷◌, All, ◌≡◌, ◌≢◌, refl, arith, String,
}
use bxi_car_v.Base.Numeric.{Numeric, OrderLaws}
use bxi_car_v.Torque.Rows.{
  Motor, Units, nm, permille, Row, Table, cell, column, if_finite, parse_float, convert,
  calculated_nm, unconvertible, or_calculated, motor_value, iter_rows, refine_units, units_after,
  choose_motor_units,
}

module _ (n : Numeric) (laws : OrderLaws n) where
  open n use {F, lt, le, lit, is_finite}

  abbrev permille_of : Row → Motor → Option F
  permille_of row motor = parse_float n (cell (column motor "_permille") row)

  abbrev rated_of : Row → Motor → Option F
  rated_of row motor = parse_float n (cell (column motor "_rated_mnm") row)

  if_finite-finite : (o : Option F) {f : F} → if_finite n o ≡ some f → is_finite f ≡ true
  unfolding if_finite
  if_finite-finite none h = absurd (cc h)
  if_finite-finite (some f) h = ground arith

  parse_float-finite : (o : Option String) {f : F} → parse_float n o ≡ some f → is_finite f ≡ true
  unfolding parse_float
  parse_float-finite none h = absurd (cc h)
  parse_float-finite (some s) h = grind (arith, if_finite-finite)

  -- Raw feedback that can be converted is.
  convertible_lem :
      is_finite (lit 0 0) ≡ true
      → (p q : Option F) → p ≢ none
      → ((r : F) → q ≡ some r → is_finite r ≡ true)
      → unconvertible n p q ≡ false
      → convert n p q ≢ none
  unfolding unconvertible convert
  convertible_lem zero none q h k e = absurd (h refl)
  convertible_lem zero (some p) none h k e = absurd (cc e)
  convertible_lem zero (some p) (some r) h k e =
      ground (arith, k r refl, laws.lt_of_not-le r (lit 0 0))

  units_after_permille :
      (rows : List (F × Row)) (units : Motor → Units) (motor : Motor)
      → units motor ≡ permille
      → units_after n rows units motor ≡ permille
  unfolding units_after refine_units
  units_after_permille [] units motor h = h
  units_after_permille ((t, row) ∷ rows) units motor h =
      units_after_permille rows (refine_units n row units) motor (ground arith)

  -- In nm, every row can be converted.
  row_convertible :
      (rows : List (F × Row)) (row : Row) (units : Motor → Units) (motor : Motor)
      → units_after n rows (refine_units n row units) motor ≡ nm
      → unconvertible n (permille_of row motor) (rated_of row motor) ≡ false
  unfolding refine_units
  row_convertible rows row units motor h =
      ground (arith, units_after_permille rows (refine_units n row units) motor)

  or_calculated_some : (o c : Option F) → c ≢ none → or_calculated n o c ≢ none
  unfolding or_calculated
  or_calculated_some none c h = h
  or_calculated_some (some f) c h = ground arith

  -- The row's raw feedback is not lost in a unit.
  abbrev pub Kept : Motor → Units → F × Row → Type 0
  Kept motor u (t, row) =
      parse_float n (cell (column motor "_permille") row) ≢ none → motor_value n row motor u ≢ none

  all_permille : (rows : List (F × Row)) (motor : Motor) → All (Kept motor permille) rows
  unfolding motor_value
  all_permille [] motor = tt
  all_permille ((t, row) ∷ rows) motor = ((λ h. h), all_permille rows motor)

  all_nm :
      is_finite (lit 0 0) ≡ true
      → (rows : List (F × Row)) (units : Motor → Units) (motor : Motor)
      → units_after n rows units motor ≡ nm
      → All (Kept motor nm) rows
  unfolding units_after motor_value calculated_nm
  all_nm zero [] units motor h = tt
  all_nm zero ((t, row) ∷ rows) units motor h = (
    (λ k. or_calculated_some (parse_float n (cell (column motor "_nm") row)) _ (
        convertible_lem zero (permille_of row motor) (rated_of row motor) k
          (λ r. parse_float-finite (cell (column motor "_rated_mnm") row))
          (row_convertible rows row units motor h))),
    all_nm zero rows (refine_units n row units) motor h,
  )

  all_rows-Kept :
      is_finite (lit 0 0) ≡ true
      → (table : Table) (motor : Motor) (u : Units) → choose_motor_units n table motor ≡ u
      → All (Kept motor u) (iter_rows n table)
  unfolding choose_motor_units
  all_rows-Kept zero table motor permille h = all_permille (iter_rows n table) motor
  all_rows-Kept zero table motor nm h = all_nm zero (iter_rows n table) (λ motor. nm) motor h

  -- Zero being finite, and the order of finite floats total: in the unit chosen for a motor, every row
  -- of the recording that holds raw permille feedback of the motor gives a value.
  pub units_keep_feedback :
      is_finite (lit 0 0) ≡ true
      → (table : Table) (motor : Motor)
      → All (Kept motor (choose_motor_units n table motor)) (iter_rows n table)
  units_keep_feedback zero table motor =
      all_rows-Kept zero table motor (choose_motor_units n table motor) refl
