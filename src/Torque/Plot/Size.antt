-- ===== src/Torque/Plot/Size.antt =====
-- The number of points that the plot of a motor is given.
use bxi_car_v.Base.{
  ℕ, zero, suc, ◌*◌, ◌≤◌, Bool, true, false, Option, none, some, List, [], ◌∷◌, ◌≡◌, refl, arith,
  length, length-append,
}
use bxi_car_v.Base.Numeric.{Numeric}
use bxi_car_v.Torque.Rows.{Motor, Units, Row, Table, motor_value, iter_rows}
use bxi_car_v.Torque.Plot.{
  Bucket, bucket_count, bucket_index, buckets, two, extremes, separate, plain, gap, points_of,
  points, add_at, fill, all_points, plot_series,
}

bucket_count-bounded : (rows : ℕ) → bucket_count rows ≤ 3000
unfolding bucket_count
bucket_count-bounded rows = ground arith

length-buckets : (F : Type 0) (k : ℕ) → length (buckets {F = F} k) ≡ k
unfolding buckets
length-buckets F zero = refl
length-buckets F (suc k) = omega (arith, length-buckets F k)

module _ (n : Numeric) where
  open n use {F}

  length-extremes : (b : Bucket F) (lo hi : F) → length (extremes n b lo hi) ≤ 2
  unfolding extremes two
  length-extremes b lo hi = ground arith

  length-separate : (ps : List (F × F)) → length (separate n ps) ≡ 3 * length ps
  unfolding separate
  length-separate [] = refl
  length-separate ((t, v) ∷ ps) = omega (arith, length-separate ps)

  length-plain : (ps : List (F × F)) → length (plain n ps) ≡ length ps
  unfolding plain
  length-plain [] = refl
  length-plain ((t, v) ∷ ps) = omega (arith, length-plain ps)

  length-gap : (o : Option F) (missing : Bool) → length (gap n o missing) ≤ 1
  unfolding gap
  length-gap none true = omega arith
  length-gap none false = omega arith
  length-gap (some t) true = omega arith
  length-gap (some t) false = omega arith

  length-points_of : (o p : Option F) (b : Bucket F) → length (points_of n o p b) ≤ 6
  unfolding points_of
  length-points_of (some lo) (some hi) b = ground (
    arith,
    length-separate (extremes n b lo hi),
    length-plain (extremes n b lo hi),
    length-extremes b lo hi,
  )
  length-points_of (some lo) none b = omega (arith, length-gap b.first_t b.has_missing)
  length-points_of none (some hi) b = omega (arith, length-gap b.first_t b.has_missing)
  length-points_of none none b = omega (arith, length-gap b.first_t b.has_missing)

  length-all_points : (bs : List (Bucket F)) → length (all_points n bs) ≤ 6 * length bs
  unfolding all_points points
  length-all_points [] = omega arith
  length-all_points (b ∷ bs) = omega (
    arith,
    length-append (points n b) (all_points n bs),
    length-points_of b.min_v b.max_v b,
    length-all_points bs,
  )

  length-add_at :
      (i : ℕ) (t : F) (o : Option F) (bs : List (Bucket F)) → length (add_at n i t o bs) ≡ length bs
  unfolding add_at
  length-add_at i t o [] = refl
  length-add_at zero t o (b ∷ bs) = refl
  length-add_at (suc i) t o (b ∷ bs) = omega (arith, length-add_at i t o bs)

  length-fill :
      (count row_count : ℕ) (motor : Motor) (unit : Units) (i : ℕ) (rows : List (F × Row))
      (bs : List (Bucket F))
      → length (fill n count row_count motor unit i rows bs) ≡ length bs
  unfolding fill
  length-fill count row_count motor unit i [] bs = refl
  length-fill count row_count motor unit i ((t, row) ∷ rows) bs = omega (
    arith,
    length-fill count row_count motor unit (suc i) rows
        (add_at n (bucket_index count row_count i) t (motor_value n row motor unit) bs),
    length-add_at (bucket_index count row_count i) t (motor_value n row motor unit) bs,
  )

  -- However long the recording is, the series of a motor has at most six points for each of the 3000
  -- buckets, so 18000 points.
  pub plot_bounded :
      (row_count : ℕ) (units : Motor → Units) (table : Table) (motor : Motor)
      → length (plot_series n row_count units table motor) ≤ 18000
  unfolding plot_series
  plot_bounded row_count units table motor = omega (
    arith,
    length-all_points (
        fill n (bucket_count row_count) row_count motor (units motor) 0 (iter_rows n table)
          (buckets (bucket_count row_count))),
    length-fill (bucket_count row_count) row_count motor (units motor) 0 (iter_rows n table)
        (buckets (bucket_count row_count)),
    length-buckets F (bucket_count row_count),
    bucket_count-bounded row_count,
  )
