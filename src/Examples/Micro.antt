-- ===== src/Examples/Micro.antt =====
-- Numbers of six decimals, as an instance of what the program takes from floats. All are finite, and
-- the comparisons are those of the integers.
use bxi_car_v.Base.Text.{codes}
use bxi_car_v.Base.{
  ◌&&◌, leb, ap, ◌-◌, ℕ, ◌+◌, ◌*◌, ◌/◌, ◌^◌, true, false, Option, none, some, List, [], ◌∷◌, arith,
  if◌then◌else◌, ◌==◌,
}
use bxi_car_v.Base.Int.{ℤ, pos, ltb_ℤ, leb_ℤ, eq_ℤ, eq_ℤ-sound, sub_ℕ, pos_part, neg_part}
use bxi_car_v.Base.Value.{Value, int, float, list, Items, nil, cons}
use bxi_car_v.Base.Numeric.{Numeric, OrderLaws, EqLaws, Vec3}

abbrev size : ℤ → ℕ
size z = pos_part z + neg_part z

-- A natural size, negated if two numbers differ in sign.
abbrev signed : ℤ → ℤ → ℕ → ℤ
signed a b k =
    if leb_ℤ (pos 0) a
    then (if leb_ℤ (pos 0) b then pos k else sub_ℕ 0 k)
    else (if leb_ℤ (pos 0) b then sub_ℕ 0 k else pos k)

abbrev micro : ℕ
micro = 1000000

abbrev plus : ℤ → ℤ → ℤ
plus a b = sub_ℕ (pos_part a + pos_part b) (neg_part a + neg_part b)

abbrev minus : ℤ → ℤ → ℤ
minus a b = sub_ℕ (pos_part a + neg_part b) (neg_part a + pos_part b)

abbrev times : ℤ → ℤ → ℤ
times a b = signed a b (size a * size b / micro)

abbrev over : ℤ → ℤ → ℤ
over a b = if size b == 0 then pos 0 else signed a b (size a * micro / size b)

abbrev number_of : Value ℤ → Option ℤ
number_of (int z) = some (signed z (pos 0) (size z * micro))
number_of (float f) = some f
number_of _ = none

abbrev row : Items ℤ → Option (List ℤ)
row nil = some []
row (cons v vs) = elim (number_of v) [
  | none ↦ none
  | some f ↦ elim (row vs) [ none ↦ none | some fs ↦ some (f ∷ fs) ]
]

abbrev vector : Value ℤ → Option (List ℤ)
vector (list xs) = row xs
vector _ = none

abbrev total : List ℤ → ℤ
total [] = pos 0
total (a ∷ rest) = plus (pos (size a)) (total rest)

abbrev dot : Vec3 ℤ → Vec3 ℤ → ℤ
dot a b = plus (plus (times a.x b.x) (times a.y b.y)) (times a.z b.z)

-- A text of decimal digits.
abbrev digits : ℕ → List ℕ → Option ℤ
digits k [] = some (pos (k * micro))
digits k (c ∷ cs) =
    let more = digits (k * 10 + (c - 48)) cs in if leb 48 c && leb c 57 then more else none

abbrev whole : List ℕ → Option ℤ
whole [] = none
whole cs = digits 0 cs

abbrev pub numbers : Numeric
numbers = record {
  F = ℤ;
  lt = ltb_ℤ;
  le = leb_ℤ;
  eq = eq_ℤ;
  is_finite = λ z. true;
  is_nan = λ z. false;
  of_int = λ z. some (signed z (pos 0) (size z * micro));
  eq_int = λ f z. eq_ℤ f (signed z (pos 0) (size z * micro));
  trunc = λ f. signed f (pos 0) (size f / micro);
  of_text = λ s. whole (codes s);
  lit = λ m k. pos (m * micro / 10 ^ k);
  add = plus;
  sub = minus;
  mul = times;
  div = over;
  neg = λ a. minus (pos 0) a;
  abs = λ a. pos (size a);
  sin = λ a. a;
  cos = λ a. pos micro;
  floor = λ a. signed a (pos 0) (size a / micro * micro);
  copysign = λ a b. signed (pos 0) b (size a);
  hypot = λ a b. pos (size a + size b);
  atan2 = over;
  remainder = λ a b. a;
  pi = pos 3141592;
  as_vector = vector;
  as_matrix = λ v. none;
  norm = total;
  matvec = λ m v. record { x = dot m.r0 v; y = dot m.r1 v; z = dot m.r2 v };
  det = λ m. pos micro;
  gram_close = λ m. true;
}

pub numbers-OrderLaws : OrderLaws numbers
numbers-OrderLaws = record {
  lt_of_not-le = λ a b _ _ h. ground arith;
  le_refl = λ a _. ground arith;
  le_of_lt = λ a b h. ground arith;
  le_lt_trans = λ a b c h k. ground arith;
  lt_trans = λ a b c h k. ground arith;
  lt_irrefl = λ a. ground arith;
}

pub numbers-EqLaws : EqLaws numbers
numbers-EqLaws = record { eq_lt = λ a b c h. ap (λ x. ltb_ℤ x c) (eq_ℤ-sound a b h) }
