-- ===== src/Torque/Plot.antt =====
-- `class Bucket` and `collect_plot_series` of arm_torque_report.py. The true division that picks a
-- bucket is the exact quotient: `int` of it gives the same for products below 2^53, which 3000 buckets
-- do not reach in any recording.
pub mod Extremes
pub mod Size
use bxi_car_v.Base.{
  ℕ, zero, suc, ◌+◌, ◌-◌, ◌*◌, ◌/◌, Bool, true, false, not, ◌||◌, Option, none, some, List, [], ◌∷◌,
  ◌++◌, ltb, leb, if◌then◌else◌,
}
use bxi_car_v.Base.Numeric.{Numeric}
use bxi_car_v.Torque.Rows.{Motor, Units, Row, Table, motor_value, iter_rows}

pub record Bucket (F : Type 0) : Type 0 where
  pub has_missing : Bool
  pub min_t : Option F
  pub min_v : Option F
  pub max_t : Option F
  pub max_v : Option F
  pub first_t : Option F

-- `MAX_PLOT_POINTS_PER_MOTOR`
abbrev pub max_plot_points : ℕ
max_plot_points = 6000

abbrev pub empty_bucket : {F : Type 0} → Bucket F
empty_bucket = record {
  has_missing = false;
  min_t = none;
  min_v = none;
  max_t = none;
  max_v = none;
  first_t = none;
}

-- `max(1, min(row_count, MAX_PLOT_POINTS_PER_MOTOR // 2))`
unfoldable pub bucket_count : ℕ → ℕ
bucket_count row_count =
    let wanted = if ltb (max_plot_points / 2) row_count then max_plot_points / 2 else row_count in
    if ltb wanted 1 then 1 else wanted

-- `min(bucket_count - 1, int(index * bucket_count / max(1, row_count)))`
unfoldable pub bucket_index : ℕ → ℕ → ℕ → ℕ
bucket_index count row_count index =
    let quotient = index * count / (if ltb row_count 1 then 1 else row_count) in
    if ltb quotient (count - 1) then quotient else count - 1

-- `n` fresh buckets.
unfoldable pub buckets : {F : Type 0} → ℕ → List (Bucket F)
buckets zero = []
buckets (suc n) = empty_bucket ∷ buckets n

module _ (n : Numeric) where
  open n use {F, lt, eq, lit}

  -- A point of a series; its value is `none` for `math.nan`.
  abbrev pub Point : Type 0
  Point = F × Option F

  begin : F → Bucket F → Bucket F
  begin elapsed b = record b { first_t = elim b.first_t [ none ↦ some elapsed | some t ↦ some t ] }

  -- `current is None or value < current`, and the other way round.
  below : Option F → F → Bool
  below none v = true
  below (some current) v = lt v current

  above : Option F → F → Bool
  above none v = true
  above (some current) v = lt current v

  lower : F → F → Bucket F → Bucket F
  unfolding below
  lower elapsed v b =
      if below b.min_v v then record b { min_v = some v; min_t = some elapsed } else b

  raise : F → F → Bucket F → Bucket F
  unfolding above
  raise elapsed v b =
      if above b.max_v v then record b { max_v = some v; max_t = some elapsed } else b

  note_value : F → Option F → Bucket F → Bucket F
  unfolding lower raise
  note_value elapsed none b = record b { has_missing = true }
  note_value elapsed (some v) b = raise elapsed v (lower elapsed v b)

  unfoldable pub add : F → Option F → Bucket F → Bucket F
  unfolding begin note_value
  add elapsed value b = note_value elapsed value (begin elapsed b)

  -- `t or 0.0`
  or_zero : Option F → F
  or_zero none = lit 0 0
  or_zero (some t) = if eq t (lit 0 0) then lit 0 0 else t

  same_time : Option F → Option F → Bool
  same_time none none = true
  same_time (some a) (some b) = eq a b
  same_time _ _ = false

  -- The sorting of at most two points by time, which keeps their order in a tie.
  two : F × F → F × F → List (F × F)
  two (s, v) (t, w) = if lt t s then (t, w) ∷ (s, v) ∷ [] else (s, v) ∷ (t, w) ∷ []

  extremes : Bucket F → F → F → List (F × F)
  unfolding or_zero same_time two
  extremes b lo hi =
      if not (same_time b.max_t b.min_t) || not (eq hi lo)
      then two (or_zero b.min_t, lo) (or_zero b.max_t, hi)
      else (or_zero b.min_t, lo) ∷ []

  separate : List (F × F) → List Point
  separate [] = []
  separate ((t, v) ∷ ps) = (t, none) ∷ (t, some v) ∷ (t, none) ∷ separate ps

  plain : List (F × F) → List Point
  plain [] = []
  plain ((t, v) ∷ ps) = (t, some v) ∷ plain ps

  gap : Option F → Bool → List Point
  gap (some t) true = (t, none) ∷ []
  gap _ _ = []

  points_of : Option F → Option F → Bucket F → List Point
  unfolding extremes separate plain gap
  points_of (some lo) (some hi) b =
      if b.has_missing then separate (extremes b lo hi) else plain (extremes b lo hi)
  points_of _ _ b = gap b.first_t b.has_missing

  unfoldable pub points : Bucket F → List Point
  unfolding points_of
  points b = points_of b.min_v b.max_v b

  -- `buckets[i].add(elapsed, value)`
  unfoldable pub add_at : ℕ → F → Option F → List (Bucket F) → List (Bucket F)
  unfolding add
  add_at i elapsed value [] = []
  add_at zero elapsed value (b ∷ bs) = add elapsed value b ∷ bs
  add_at (suc i) elapsed value (b ∷ bs) = b ∷ add_at i elapsed value bs

  -- The loop over the rows, for one motor, from an index on.
  unfoldable pub fill :
      ℕ → ℕ → Motor → Units → ℕ → List (F × Row) → List (Bucket F) → List (Bucket F)
  unfolding add_at bucket_index
  fill count row_count motor unit index [] bs = bs
  fill count row_count motor unit index ((elapsed, row) ∷ rows) bs =
      fill count row_count motor unit (suc index) rows
        (add_at (bucket_index count row_count index) elapsed (motor_value n row motor unit) bs)

  unfoldable pub all_points : List (Bucket F) → List Point
  unfolding points
  all_points [] = []
  all_points (b ∷ bs) = points b ++ all_points bs

  -- `collect_plot_series(path, row_count, units)[motor]`, its points in order.
  unfoldable pub plot_series : ℕ → (Motor → Units) → Table → Motor → List Point
  unfolding fill buckets bucket_count all_points
  plot_series row_count units table motor = all_points (
      fill (bucket_count row_count) row_count motor (units motor) 0 (iter_rows n table)
        (buckets (bucket_count row_count)))
