-- ===== src/Yiyou/Calibration/Home.antt =====
-- What `verify_home_records` has checked when it lets a home run begin.
use bxi_car_v.Base.{
  ℕ, true, false, Option, none, some, Option-cases, inl, inr, List, [], ◌∷◌, ◌≡◌, ◌≢◌, refl, subst,
  arith, ==_iff, contains, String,
}
use bxi_car_v.Base.Int.{ℤ, pos, eq_ℤ-sound}
use bxi_car_v.Base.Value.{Value, bool, int, float, list, dict, Items, nil, cons, Fields, item}
use bxi_car_v.Base.Numeric.{Numeric}
use bxi_car_v.Yiyou.Calibration.{
  Axis, record_key, axis_at, same_items, same_identity, same_scale, matches, all_match,
  verify_home_records,
}

module _ (n : Numeric) where
  open n use {F, eq, of_int}

  -- The numbers of a list of ints and bools, a bool counting as 0 or 1.
  abbrev pub ints_of : Items F → Option (List ℤ)
  ints_of nil = some []
  ints_of (cons (int z) xs) = elim (ints_of xs) [ none ↦ none | some zs ↦ some (z ∷ zs) ]
  ints_of (cons (bool true) xs) = elim (ints_of xs) [ none ↦ none | some zs ↦ some (pos 1 ∷ zs) ]
  ints_of (cons (bool false) xs) = elim (ints_of xs) [ none ↦ none | some zs ↦ some (pos 0 ∷ zs) ]
  ints_of _ = none

  -- The float of a number: itself, or that of an int.
  abbrev pub float_of : Value F → Option F
  float_of (float f) = some f
  float_of (int z) = of_int z
  float_of _ = none

  ints-same_items : (xs : Items F) (zs : List ℤ) → same_items n xs zs ≡ true → ints_of xs ≡ some zs
  unfolding same_items
  ints-same_items nil [] h = refl
  ints-same_items (cons (int a) xs) (b ∷ bs) h =
      ground (arith, eq_ℤ-sound a b, ints-same_items xs bs)
  ints-same_items (cons (bool true) xs) (b ∷ bs) h =
      ground (arith, eq_ℤ-sound (pos 1) b, ints-same_items xs bs)
  ints-same_items (cons (bool false) xs) (b ∷ bs) h =
      ground (arith, eq_ℤ-sound (pos 0) b, ints-same_items xs bs)
  ints-same_items _ _ h = absurd (cc h)

  identity-same :
      (v : Option (Value F)) (zs : List ℤ)
      → same_identity n v zs ≡ true
      → (xs : Items F) × (v ≡ some (list xs)) × (ints_of xs ≡ some zs)
  unfolding same_identity
  identity-same (some (list xs)) zs h = (xs, refl, ints-same_items xs zs h)
  identity-same _ zs h = absurd (cc h)

  scale-same :
      (v : Option (Value F)) (scale : F)
      → same_scale n v scale ≡ true
      → (x : Value F) × (f : F) × (v ≡ some x) × (float_of x ≡ some f) × (eq f scale ≡ true)
  unfolding same_scale
  scale-same (some (float f)) scale h = (float f, f, refl, refl, h)
  scale-same (some (int z)) scale h = elim (Option-cases (of_int z)) [
    | inl e ↦ absurd (ground (arith, e))
    | inr (f, e) ↦ (int z, f, refl, e, ground arith)
  ]
  scale-same _ scale h = absurd (cc h)

  matches-fields :
      (v : Option (Value F)) (a : Option (Axis F))
      → matches n v a ≡ true
      → (d : Fields F) × (axis : Axis F) × (v ≡ some (dict d))
        × (a ≡ some axis)
        × (same_identity n (item "identity" d) axis.identity ≡ true)
        × (same_scale n (item "scale" d) axis.scale ≡ true)
  unfolding matches
  matches-fields (some (dict d)) (some axis) h = (d, axis, refl, refl, ground arith, ground arith)
  matches-fields _ _ h = absurd (cc h)

  all_match-matches :
      (interface : String) (slave : ℕ) (slaves : List ℕ) (axes : List (Axis F)) (r : Fields F)
      → all_match n interface slaves axes r ≡ true
      → contains slave slaves ≡ true
      → matches n (item (record_key interface slave) r) (axis_at n (pos slave) axes) ≡ true
  unfolding all_match
  all_match-matches interface slave [] axes r h k = absurd (cc k)
  all_match-matches interface slave (x ∷ xs) axes r h k =
      ground (arith, ==_iff slave x, all_match-matches interface slave xs axes r)

  four_is_refused :
      (interface : String) (slaves : List ℕ) (axes : List (Axis F)) (r : Fields F)
      → contains 4 slaves ≡ true
      → verify_home_records n interface slaves axes r ≡ true
      → ⊥
  unfolding verify_home_records
  four_is_refused interface slaves axes r a b = ground arith

  -- When `verify_home_records` lets a home run begin, every requested slave is another than axis 4,
  -- the backend has reported an axis for it, and its record is a dict in which the identity is a list
  -- with the very numbers of the axis's identity (a bool counting as 0 or 1) and the scale is a number
  -- that is equal, as a float, to the axis's scale.
  pub home_checked :
      (interface : String) (slave : ℕ) (slaves : List ℕ) (axes : List (Axis F)) (r : Fields F)
      → verify_home_records n interface slaves axes r ≡ true
      → contains slave slaves ≡ true
      → (slave ≢ 4)
        × (d : Fields F) × (axis : Axis F) × (item (record_key interface slave) r ≡ some (dict d))
        × (axis_at n (pos slave) axes ≡ some axis)
        × ((xs : Items F) × (item "identity" d ≡ some (list xs))
            × (ints_of xs ≡ some axis.identity))
        × (x : Value F) × (f : F) × (item "scale" d ≡ some x)
        × (float_of x ≡ some f)
        × (eq f axis.scale ≡ true)
  unfolding verify_home_records
  home_checked interface slave slaves axes r h k =
      let (d, axis, a, b, c, e) =
        matches-fields (item (record_key interface slave) r) (axis_at n (pos slave) axes)
          (all_match-matches interface slave slaves axes r (ground arith) k) in
      let (x, f, p, q, same) = scale-same (item "scale" d) axis.scale e in
      (
        λ e. four_is_refused interface slaves axes r (subst (λ x. contains x slaves ≡ true) e k) h,
        d,
        axis,
        a,
        b,
        identity-same (item "identity" d) axis.identity c,
        x,
        f,
        p,
        q,
        same,
      )
