-- ===== src/Base/Numeric.antt =====
-- What the program takes from Python's floats, `math` and NumPy. None of it is code of this
-- repository, so it is one record of operations; what a theorem needs of them is stated as a record
-- of laws beside it. A float may be infinite or not a number.
use Prim.Native.Nat.{ℕ}
use Prim.Native.String.{String}
use mathlib.Core.Path.{◌≡◌}
use mathlib.Core.Bool.{Bool, true, false}
use mathlib.Core.Option.{Option, none, some}
use mathlib.Core.List.{List}
use native.Mathlib.Omega.{arith}
use bxi_car_v.Base.Tests.{if◌then◌else◌}
use bxi_car_v.Base.Int.{ℤ}
use bxi_car_v.Base.Value.{Value, int, float}

-- A NumPy array of shape (3,).
pub record Vec3 (F : Type 0) : Type 0 where
  pub x : F
  pub y : F
  pub z : F

-- A NumPy array of shape (3, 3), by rows.
pub record Mat3 (F : Type 0) : Type 0 where
  pub r0 : Vec3 F
  pub r1 : Vec3 F
  pub r2 : Vec3 F

pub record Numeric : Type 1 where
  pub F : Type 0
  -- the comparisons, which are false where an argument is not a number
  pub lt : F → F → Bool
  pub le : F → F → Bool
  pub eq : F → F → Bool
  pub is_finite : F → Bool
  pub is_nan : F → Bool
  -- `float(n)` of an int, `none` being the OverflowError; `f == n`; `int(f)` of a finite float
  pub of_int : ℤ → Option F
  pub eq_int : F → ℤ → Bool
  pub trunc : F → ℤ
  -- `float(text)`, `none` being the ValueError
  pub of_text : String → Option F
  -- the decimal literal m·10⁻ᵏ
  pub lit : ℕ → ℕ → F
  pub add : F → F → F
  pub sub : F → F → F
  pub mul : F → F → F
  pub div : F → F → F
  pub neg : F → F
  pub abs : F → F
  pub sin : F → F
  pub cos : F → F
  pub floor : F → F
  pub copysign : F → F → F
  pub hypot : F → F → F
  pub atan2 : F → F → F
  pub remainder : F → F → F
  pub pi : F
  -- `np.asarray(value)` as float64s, where its dtype is numeric and it has one or two dimensions
  pub as_vector : Value F → Option (List F)
  pub as_matrix : Value F → Option (List (List F))
  -- `np.linalg.norm`, `@`, `np.linalg.det`, and `np.allclose(m.T @ m, np.eye(3), rtol=0, atol=1e-6)`
  pub norm : List F → F
  pub matvec : Mat3 F → Vec3 F → Vec3 F
  pub det : Mat3 F → F
  pub gram_close : Mat3 F → Bool

module _ (n : Numeric) where
  open n use {F, lt, is_finite, of_int}

  -- Python's `max(a, b)` and `min(a, b)`: the first argument wins a tie.
  pub max_of : F → F → F
  max_of a b = if lt a b then b else a

  pub min_of : F → F → F
  min_of a b = if lt b a then b else a

  finite : Option F → Option F
  finite none = none
  finite (some f) = if is_finite f then some f else none

  -- `_number` of arm_tracking.py; `none` is its ValueError.
  unfoldable pub number : Value F → Option F
  unfolding finite
  number (int z) = finite (of_int z)
  number (float f) = finite (some f)
  number _ = none

-- The comparisons agree on finite floats, where they are a total order.
pub record OrderLaws (n : Numeric) : Type 0 where
  pub lt_of_not-le :
      (a b : n.F) → n.is_finite a ≡ true → n.is_finite b ≡ true → n.le a b ≡ false → n.lt b a ≡ true
  pub le_refl : (a : n.F) → n.is_finite a ≡ true → n.le a a ≡ true
  pub le_of_lt : (a b : n.F) → n.lt a b ≡ true → n.le a b ≡ true
  pub le_lt_trans : (a b c : n.F) → n.le a b ≡ true → n.lt b c ≡ true → n.lt a c ≡ true
  pub lt_trans : (a b c : n.F) → n.lt a b ≡ true → n.lt b c ≡ true → n.lt a c ≡ true
  pub lt_irrefl : (a : n.F) → n.lt a a ≡ false

-- Floats that compare equal compare alike with any other.
pub record EqLaws (n : Numeric) : Type 0 where
  pub eq_lt : (a b c : n.F) → n.eq a b ≡ true → n.lt a c ≡ n.lt b c

pub number_finite :
    (n : Numeric) (v : Value n.F) {f : n.F} → number n v ≡ some f → n.is_finite f ≡ true
unfolding number
number_finite n v h = ground arith
