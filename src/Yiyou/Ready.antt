-- ===== src/Yiyou/Ready.antt =====
-- The start of the motor tool in yiyou_control.py: `parse_speed`, `parse_timeout`, `axis_from_json`
-- and `wait_ready`, whose loop takes what each poll of the backend finds.
pub mod Axes
use bxi_car_v.Base.Text.{codes}
use bxi_car_v.Base.{
  ℕ, suc, Bool, true, false, ◌&&◌, ◌||◌, not, Option, none, some, List, [], ◌∷◌, map, ◌≡◌, refl,
  arith, ◌==◌, contains, String, if◌then◌else◌, All, is_none,
}
use bxi_car_v.Base.Int.{ℤ, pos, negsuc, eq_ℤ, leb_ℤ}
use bxi_car_v.Base.Value.{
  Value, bool, int, float, str, list, dict, Items, nil, cons, Fields, is_str, is_int, item, get,
  count_items, all_items,
}
use bxi_car_v.Base.Numeric.{Numeric}
use bxi_car_v.Yiyou.Slaves.{int_of}
use bxi_car_v.Yiyou.Calibration.{Failure, user_error, bad_value, Axis, axis_at}

-- What a step gives, or the exception that it raises.
pub data Outcome (A : Type 0) : Type 0 where
  good : A → Outcome A
  raised : Failure → Outcome A

infixl 5 ◌>>=◌
abbrev ◌>>=◌ : {A B : Type 0} → Outcome A → (A → Outcome B) → Outcome B
good a >>= f = f a
raised why >>= f = raised why

check : Bool → Outcome (Unit {0})
check true = good tt
check false = raised user_error

from_text : {A : Type 0} → Option A → Outcome A
from_text none = raised user_error
from_text (some a) = good a

insert : ℤ → List ℤ → List ℤ
insert z [] = z ∷ []
insert z (x ∷ xs) = if leb_ℤ z x then z ∷ x ∷ xs else x ∷ insert z xs

-- `sorted` of distinct integers.
unfoldable pub sorted : List ℤ → List ℤ
unfolding insert
sorted [] = []
sorted (x ∷ xs) = insert x (sorted xs)

unfoldable pub same_list : List ℤ → List ℤ → Bool
same_list [] [] = true
same_list (x ∷ xs) (y ∷ ys) = eq_ℤ x y && same_list xs ys
same_list _ _ = false

module _ (n : Numeric) where
  open n use {F, le, is_finite, is_nan, of_int, of_text, trunc, lit}

  -- `parse_speed` and `parse_timeout`, `none` being their refusal.
  in_bounds : (F → Bool) → Option F → Option F
  in_bounds test none = none
  in_bounds test (some f) = if is_finite f && (not (le f (lit 0 0)) && test f) then some f else none

  unfoldable pub parse_speed : String → Option F
  unfolding in_bounds
  parse_speed value = in_bounds (λ f. not (le (lit 60 0) f)) (of_text value)

  unfoldable pub parse_timeout : String → Option F
  unfolding in_bounds
  parse_timeout value = in_bounds (λ f. not (n.lt (lit 3600 0) f)) (of_text value)

  -- `int(value)`: a ValueError, a TypeError and a KeyError become a UserError, and an infinite float
  -- raises an OverflowError, which nothing catches.
  int_read : Option (Value F) → Outcome ℤ
  unfolding codes from_text
  int_read (some (int z)) = good z
  int_read (some (bool true)) = good (pos 1)
  int_read (some (bool false)) = good (pos 0)
  int_read (some (float f)) =
      if is_finite f
      then good (trunc f)
      else if is_nan f
      then raised user_error
      else raised bad_value
  int_read (some (str s)) = from_text (int_of (codes s))
  int_read _ = raised user_error

  no_overflow : Option F → Outcome F
  no_overflow none = raised bad_value
  no_overflow (some f) = good f

  -- `float(value)`, likewise.
  float_read : Option (Value F) → Outcome F
  unfolding from_text no_overflow
  float_read (some (int z)) = no_overflow (of_int z)
  float_read (some (bool true)) = good (lit 1 0)
  float_read (some (bool false)) = good (lit 0 0)
  float_read (some (float f)) = good f
  float_read (some (str s)) = from_text (of_text s)
  float_read _ = raised user_error

  ints : Items F → List ℤ
  ints nil = []
  ints (cons (int z) xs) = z ∷ ints xs
  ints (cons (bool true) xs) = pos 1 ∷ ints xs
  ints (cons (bool false) xs) = pos 0 ∷ ints xs
  ints (cons _ xs) = ints xs

  identity_read : Value F → Outcome (List ℤ)
  unfolding ints check
  identity_read (list xs) =
      check (count_items xs == 4 && all_items is_int xs) >>= λ _. good (ints xs)
  identity_read _ = raised user_error

  -- `item.get("position_valid", True) is True`
  valid_flag : Option (Value F) → Bool
  valid_flag none = true
  valid_flag (some (bool b)) = b
  valid_flag (some _) = false

  axis_of : ℤ → List ℤ → F → ℤ → Bool → Axis F
  axis_of slave identity scale position valid = record {
    slave = slave;
    identity = identity;
    scale = scale;
    position = position;
    current_permille = none;
    rated_current_ma = pos 0;
    position_valid = valid;
  }

  -- `axis_from_json` from the scale on, from the identity on, and from the slave on.
  with_scale : Fields F → ℤ → Value F → F → Outcome (Axis F)
  unfolding int_read identity_read valid_flag axis_of check
  with_scale d slave raw scale = int_read (item "position" d) >>= λ position.
      identity_read raw >>= λ identity. check (is_finite scale && not (le scale (lit 0 0))) >>= λ _.
      good (axis_of slave identity scale position (valid_flag (item "position_valid" d)))

  with_identity : Fields F → ℤ → Value F → Outcome (Axis F)
  unfolding float_read with_scale
  with_identity d slave raw = float_read (item "scale" d) >>= λ scale. with_scale d slave raw scale

  with_slave : Fields F → ℤ → Outcome (Axis F)
  unfolding from_text with_identity
  with_slave d slave = from_text (item "identity" d) >>= λ raw. with_identity d slave raw

  unfoldable pub axis_from_json : Value F → Outcome (Axis F)
  unfolding int_read with_slave
  axis_from_json (dict d) = int_read (item "slave" d) >>= λ slave. with_slave d slave
  axis_from_json _ = raised user_error

  -- `axes[axis.slave] = axis`
  put_axis : Axis F → List (Axis F) → List (Axis F)
  put_axis axis [] = axis ∷ []
  put_axis axis (a ∷ rest) = if eq_ℤ a.slave axis.slave then axis ∷ rest else a ∷ put_axis axis rest

  -- The dict comprehension over the axes of the event.
  gather : Items F → List (Axis F) → Outcome (List (Axis F))
  unfolding put_axis
  gather nil axes = good axes
  gather (cons v vs) axes = axis_from_json v >>= λ axis. gather vs (put_axis axis axes)

  slaves_of : List (Axis F) → List ℤ
  slaves_of [] = []
  slaves_of (a ∷ rest) = a.slave ∷ slaves_of rest

  naturals : List ℕ → List ℤ
  naturals [] = []
  naturals (k ∷ ks) = pos k ∷ naturals ks

  expected_only : List ℕ → List (Axis F) → Outcome (List (Axis F))
  unfolding check slaves_of naturals sorted same_list
  expected_only expected axes =
      check (same_list (sorted (slaves_of axes)) (sorted (naturals expected))) >>= λ _. good axes

  unfoldable pub read_ready : List ℕ → Value F → Outcome (List (Axis F))
  unfolding gather expected_only
  read_ready expected (list raw) = gather raw [] >>= expected_only expected
  read_ready expected _ = raised user_error

  -- The events of a poll; `none` goes on polling.
  ready_events : List ℕ → List (Fields F) → Option (Outcome (List (Axis F)))
  unfolding read_ready
  ready_events expected [] = none
  ready_events expected (e ∷ es) =
      let rest = ready_events expected es in
      if is_str "error" (get "event" e)
      then some (raised user_error)
      else if not (is_str "ready" (get "event" e))
      then rest
      else some (read_ready expected (get "axes" e))

  -- A poll: whether it is before the deadline, the events (`none` if its output is no JSON object)
  -- and the exit code.
  pub record Poll : Type 0 where
    pub in_time : Bool
    pub events : Option (List (Fields F))
    pub exit_code : Option ℤ

  polled_events : List ℕ → Option (List (Fields F)) → Option ℤ → Option (Outcome (List (Axis F)))
  unfolding ready_events
  polled_events expected none exit_code = some (raised user_error)
  polled_events expected (some es) exit_code = elim (ready_events expected es) [
    | some r ↦ some r
    | none ↦ if is_none exit_code then none else some (raised user_error)
  ]

  polled : List ℕ → Poll → Option (Outcome (List (Axis F)))
  unfolding polled_events
  polled expected p =
      if not p.in_time
      then some (raised user_error)
      else polled_events expected p.events p.exit_code

  -- `wait_ready`, as far as the polls go.
  unfoldable pub wait_ready : List ℕ → List Poll → Option (Outcome (List (Axis F)))
  unfolding polled
  wait_ready expected [] = none
  wait_ready expected (p ∷ ps) = elim (polled expected p) [
    | some r ↦ some r
    | none ↦ wait_ready expected ps
  ]
