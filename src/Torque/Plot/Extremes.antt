-- ===== src/Torque/Plot/Extremes.antt =====
-- Thinning out the rows for a plot loses no peak, and keeps to a number of points.
use bxi_car_v.Base.{
  ℕ, zero, suc, ◌<◌, false, Option, none, some, List, [], ◌∷◌, ◌++◌, ◌≡◌, ◌⊎◌, inl, inr, refl, ◌∙◌,
  sym, subst, arith, length, if◌then◌else◌,
}
use bxi_car_v.Base.Numeric.{Numeric, OrderLaws, EqLaws}
use bxi_car_v.Torque.Rows.{Motor, Units, Row, Table, motor_value, iter_rows}
use bxi_car_v.Torque.Plot.{
  Bucket, bucket_count, bucket_index, buckets, Point, begin, below, above, lower, raise, note_value,
  add, two, extremes, separate, plain, points_of, points, add_at, fill, all_points, plot_series,
}

module _ (n : Numeric) (laws : OrderLaws n) (eq_laws : EqLaws n) where
  open n use {F, lt, eq}

  abbrev HoldsOn : F → Option F → Option F → Type 0
  HoldsOn v (some lo) (some hi) = (lt v lo ≡ false) × (lt hi v ≡ false)
  HoldsOn v _ _ = ⊥

  -- The value lies between the extremes of the bucket.
  abbrev Holds : F → Bucket F → Type 0
  Holds v b = HoldsOn v b.min_v b.max_v

  low_kept :
      (v w : F) (o p : Option F) → HoldsOn v o p → HoldsOn v (if below n o w then some w else o) p
  unfolding below
  low_kept v w (some lo) (some hi) h = ground (arith, laws.lt_trans v w lo)
  low_kept v w none p h = absurd h
  low_kept v w (some lo) none h = absurd h

  high_kept :
      (v w : F) (o p : Option F) → HoldsOn v o p → HoldsOn v o (if above n p w then some w else p)
  unfolding above
  high_kept v w (some lo) (some hi) h = ground (arith, laws.lt_trans hi w v)
  high_kept v w none p h = absurd h
  high_kept v w (some lo) none h = absurd h

  note_value-Holds_new : (t v : F) (b : Bucket F) → Holds v (note_value n t (some v) b)
  unfolding note_value lower raise below above
  note_value-Holds_new t v b = ground (arith, laws.lt_irrefl v)

  note_value-Holds :
      (t : F) (o : Option F) (v : F) (b : Bucket F) → Holds v b → Holds v (note_value n t o b)
  unfolding note_value lower raise below above
  note_value-Holds t none v b h = h
  note_value-Holds t (some w) v b h = ground (
    arith,
    low_kept v w b.min_v b.max_v h,
    high_kept v w (if below n b.min_v w then some w else b.min_v) b.max_v,
  )

  -- A point at or above the value, and one at or below it.
  abbrev pub Upper : F → List (Point n) → Type 0
  Upper v [] = ⊥
  Upper v ((t, none) ∷ ps) = Upper v ps
  Upper v ((t, some y) ∷ ps) = (lt y v ≡ false) ⊎ Upper v ps

  abbrev pub Lower : F → List (Point n) → Type 0
  Lower v [] = ⊥
  Lower v ((t, none) ∷ ps) = Lower v ps
  Lower v ((t, some y) ∷ ps) = (lt v y ≡ false) ⊎ Lower v ps

  abbrev pub Shows : F → List (Point n) → Type 0
  Shows v ps = Upper v ps × Lower v ps

  points_of-Shows :
      (v lo hi : F) (b : Bucket F)
      → lt v lo ≡ false
      → lt hi v ≡ false
      → Shows v (points_of n (some lo) (some hi) b)
  unfolding points_of extremes separate plain two
  points_of-Shows v lo hi b h k = ground (arith, eq_laws.eq_lt hi lo v)

  points-Shows : (v : F) (b : Bucket F) → Holds v b → Shows v (points n b)
  unfolding points
  points-Shows v b h = options b.min_v b.max_v h
    where
      options : (o p : Option F) → HoldsOn v o p → Shows v (points_of n o p b)
      options (some lo) (some hi) (h, k) = points_of-Shows v lo hi b h k
      options none p h = absurd h
      options (some lo) none h = absurd h

  Upper-left : (v : F) (ps qs : List (Point n)) → Upper v ps → Upper v (ps ++ qs)
  Upper-left v [] qs h = absurd h
  Upper-left v ((t, none) ∷ ps) qs h = Upper-left v ps qs h
  Upper-left v ((t, some y) ∷ ps) qs (inl h) = inl h
  Upper-left v ((t, some y) ∷ ps) qs (inr h) = inr (Upper-left v ps qs h)

  Upper-right : (v : F) (ps qs : List (Point n)) → Upper v qs → Upper v (ps ++ qs)
  Upper-right v [] qs h = h
  Upper-right v ((t, none) ∷ ps) qs h = Upper-right v ps qs h
  Upper-right v ((t, some y) ∷ ps) qs h = inr (Upper-right v ps qs h)

  Lower-left : (v : F) (ps qs : List (Point n)) → Lower v ps → Lower v (ps ++ qs)
  Lower-left v [] qs h = absurd h
  Lower-left v ((t, none) ∷ ps) qs h = Lower-left v ps qs h
  Lower-left v ((t, some y) ∷ ps) qs (inl h) = inl h
  Lower-left v ((t, some y) ∷ ps) qs (inr h) = inr (Lower-left v ps qs h)

  Lower-right : (v : F) (ps qs : List (Point n)) → Lower v qs → Lower v (ps ++ qs)
  Lower-right v [] qs h = h
  Lower-right v ((t, none) ∷ ps) qs h = Lower-right v ps qs h
  Lower-right v ((t, some y) ∷ ps) qs h = inr (Lower-right v ps qs h)

  -- Some bucket holds the value.
  abbrev Kept : F → List (Bucket F) → Type 0
  Kept v [] = ⊥
  Kept v (b ∷ bs) = Holds v b ⊎ Kept v bs

  all_points-Shows : (v : F) (bs : List (Bucket F)) → Kept v bs → Shows v (all_points n bs)
  unfolding all_points
  all_points-Shows v [] h = absurd h
  all_points-Shows v (b ∷ bs) (inl h) =
      let (up, low) = points-Shows v b h in
      (
        Upper-left v (points n b) (all_points n bs) up,
        Lower-left v (points n b) (all_points n bs) low,
      )
  all_points-Shows v (b ∷ bs) (inr h) =
      let (up, low) = all_points-Shows v bs h in
      (
        Upper-right v (points n b) (all_points n bs) up,
        Lower-right v (points n b) (all_points n bs) low,
      )

  add_at-Kept :
      (i : ℕ) (t : F) (o : Option F) (v : F) (bs : List (Bucket F))
      → Kept v bs
      → Kept v (add_at n i t o bs)
  unfolding add_at add begin
  add_at-Kept i t o v [] h = absurd h
  add_at-Kept zero t o v (b ∷ bs) (inl h) = inl (note_value-Holds t o v (begin n t b) h)
  add_at-Kept zero t o v (b ∷ bs) (inr h) = inr h
  add_at-Kept (suc i) t o v (b ∷ bs) (inl h) = inl h
  add_at-Kept (suc i) t o v (b ∷ bs) (inr h) = inr (add_at-Kept i t o v bs h)

  add_at-Kept_new :
      (i : ℕ) (t v : F) (bs : List (Bucket F)) → i < length bs → Kept v (add_at n i t (some v) bs)
  unfolding add_at add
  add_at-Kept_new i t v [] h = absurd (omega arith)
  add_at-Kept_new zero t v (b ∷ bs) h = inl (note_value-Holds_new t v (begin n t b))
  add_at-Kept_new (suc i) t v (b ∷ bs) h = inr (add_at-Kept_new i t v bs (omega arith))

  length-add_at :
      (i : ℕ) (t : F) (o : Option F) (bs : List (Bucket F)) → length (add_at n i t o bs) ≡ length bs
  unfolding add_at
  length-add_at i t o [] = refl
  length-add_at zero t o (b ∷ bs) = refl
  length-add_at (suc i) t o (b ∷ bs) = omega (arith, length-add_at i t o bs)

  bucket_index-lt : (count rows i : ℕ) → 0 < count → bucket_index count rows i < count
  unfolding bucket_index
  bucket_index-lt count rows i h = ground arith

  bucket_count-pos : (rows : ℕ) → 0 < bucket_count rows
  unfolding bucket_count
  bucket_count-pos rows = ground arith

  length-buckets : (k : ℕ) → length (buckets {F = F} k) ≡ k
  unfolding buckets
  length-buckets zero = refl
  length-buckets (suc k) = omega (arith, length-buckets k)

  -- The row is one of the rows and has this value.
  abbrev pub HasValue : Motor → Units → F → List (F × Row) → Type 0
  HasValue motor unit v [] = ⊥
  HasValue motor unit v ((t, row) ∷ rows) =
      (motor_value n row motor unit ≡ some v) ⊎ HasValue motor unit v rows

  module _ (count row_count : ℕ) (motor : Motor) (unit : Units) where
    fill-Kept :
        (v : F) (i : ℕ) (rows : List (F × Row)) (bs : List (Bucket F))
        → Kept v bs
        → Kept v (fill n count row_count motor unit i rows bs)
    unfolding fill
    fill-Kept v i [] bs h = h
    fill-Kept v i ((t, row) ∷ rows) bs h =
        fill-Kept v (suc i) rows _
          (add_at-Kept (bucket_index count row_count i) t (motor_value n row motor unit) v bs h)

    fill-Kept_new :
        (v : F) (i : ℕ) (rows : List (F × Row)) (bs : List (Bucket F))
        → 0 < count
        → length bs ≡ count
        → HasValue motor unit v rows
        → Kept v (fill n count row_count motor unit i rows bs)
    unfolding fill
    fill-Kept_new v i [] bs pos same h = absurd h
    fill-Kept_new v i ((t, row) ∷ rows) bs pos same (inl e) = fill-Kept v (suc i) rows _ (
        subst (λ o. Kept v (add_at n (bucket_index count row_count i) t o bs)) (sym e)
          (add_at-Kept_new (bucket_index count row_count i) t v bs
            (omega (arith, bucket_index-lt count row_count i pos, same))))
    fill-Kept_new v i ((t, row) ∷ rows) bs pos same (inr h) =
        fill-Kept_new v (suc i) rows _ pos
          (length-add_at (bucket_index count row_count i) t (motor_value n row motor unit) bs
            ∙ same)
          h

  -- Whatever the number of rows was counted to be, thinning the rows out loses no extreme: to every
  -- value that a row gives for the motor, the series of the plot has a point which is not below the
  -- value and a point which is not above it. The order of the numbers is irreflexive and transitive,
  -- and equal numbers are below the same ones.
  pub plot_keeps_extremes :
      (row_count : ℕ) (units : Motor → Units) (table : Table) (motor : Motor) (v : F)
      → HasValue motor (units motor) v (iter_rows n table)
      → Shows v (plot_series n row_count units table motor)
  unfolding plot_series
  plot_keeps_extremes row_count units table motor v h = all_points-Shows v _ (
      fill-Kept_new (bucket_count row_count) row_count motor (units motor) v 0 (iter_rows n table)
        (buckets (bucket_count row_count)) (bucket_count-pos row_count)
        (length-buckets (bucket_count row_count)) h)
