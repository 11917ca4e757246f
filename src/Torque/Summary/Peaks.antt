-- ===== src/Torque/Summary/Peaks.antt =====
-- The peaks of a summary are the extremes of all values of the motor.
use bxi_car_v.Base.{◌∙◌, ap, subst}
use bxi_car_v.Base.{
  ◌+◌, Bool, true, false, Option, none, some, List, [], ◌∷◌, All, ◌≡◌, ◌⊎◌, inl, inr, refl, sym,
  arith, length, if◌then◌else◌,
}
use bxi_car_v.Base.Numeric.{Numeric, OrderLaws}
use bxi_car_v.Torque.Rows.{Motor, m1, m2, m3, m4, Units, Row, Table, motor_value, iter_rows}
use bxi_car_v.Torque.Summary.{
  Entry, Summary, max_value, min_value, max_abs, fresh_entry, new, update_time, update_entry,
  update_motor, add_row, add_rows, summarize,
}

some_eq : {A : Type 0} (a b : A) → some a ≡ some b → a ≡ b
some_eq a b e = ground arith

module _ {A : Type 0} (better : A → A → Bool) where
  -- The better one of a candidate and what there is; the candidate must win.
  pick : Option A → A → A
  pick none v = v
  pick (some b) v = if better b v then v else b

  best_of : List A → Option A → Option A
  unfolding pick
  best_of [] o = o
  best_of (v ∷ vs) o = best_of vs (some (pick o v))

  -- No better value than the chosen one.
  abbrev Beats : Option A → A → Type 0
  Beats none v = ⊥
  Beats (some b) v = better b v ≡ false

  abbrev pub Member : A → List A → Type 0
  Member b [] = ⊥
  Member b (v ∷ vs) = (b ≡ v) ⊎ Member b vs

  -- The choice is one of the values and none of them is better; without values there is none.
  abbrev pub IsBest : Option A → List A → Type 0
  IsBest none vs = vs ≡ []
  IsBest (some b) vs = Member b vs × All (λ v. better b v ≡ false) vs

  module _ (irrefl : (a : A) → better a a ≡ false)
      (trans : (a b c : A) → better a b ≡ true → better b c ≡ true → better a c ≡ true) where
    pick-Beats : (o : Option A) (v w : A) → Beats o w → Beats (some (pick o v)) w
    unfolding pick
    pick-Beats none v w h = absurd h
    pick-Beats (some b) v w h = ground (arith, trans b v w)

    pick-Beats_self : (o : Option A) (v : A) → Beats (some (pick o v)) v
    unfolding pick
    pick-Beats_self none v = irrefl v
    pick-Beats_self (some b) v = ground (arith, irrefl v)

    best_of-Beats : (vs : List A) (o : Option A) (w : A) → Beats o w → Beats (best_of vs o) w
    unfolding best_of
    best_of-Beats [] o w h = h
    best_of-Beats (v ∷ vs) o w h = best_of-Beats vs (some (pick o v)) w (pick-Beats o v w h)

    best_of-All : (vs : List A) (o : Option A) → All (Beats (best_of vs o)) vs
    unfolding best_of
    best_of-All [] o = tt
    best_of-All (v ∷ vs) o = (
      best_of-Beats vs (some (pick o v)) v (pick-Beats_self o v),
      best_of-All vs (some (pick o v)),
    )

    pick_cases : (o : Option A) (v : A) → (some (pick o v) ≡ o) ⊎ (pick o v ≡ v)
    unfolding pick
    pick_cases none v = inr refl
    pick_cases (some b) v = ground arith

    best_of-Member :
        (vs : List A) (o : Option A)
        → (best_of vs o ≡ o) ⊎ ((b : A) × (best_of vs o ≡ some b) × Member b vs)
    unfolding best_of
    best_of-Member [] o = inl refl
    best_of-Member (v ∷ vs) o = elim (best_of-Member vs (some (pick o v))) [
      | inr (b, e, m) ↦ inr (b, e, inr m)
      | inl e ↦ elim (pick_cases o v) [
        | inl same ↦ inl (e ∙ same)
        | inr new ↦ inr (pick o v, e, inl new)
      ]
    ]

    IsBest-of :
        (o : Option A) (v : A) (vs : List A)
        → All (Beats o) (v ∷ vs)
        → (o ≡ none) ⊎ ((b : A) × (o ≡ some b) × Member b (v ∷ vs))
        → IsBest o (v ∷ vs)
    IsBest-of none v vs (h, hs) m = absurd h
    IsBest-of (some b) v vs h (inl e) = absurd (cc e)
    IsBest-of (some b) v vs h (inr (c, e, m)) =
        (subst (λ x. Member x (v ∷ vs)) (sym (some_eq b c e)) m, h)

    best_of-IsBest : (vs : List A) → IsBest (best_of vs none) vs
    best_of-IsBest [] = unfold best_of in refl
    best_of-IsBest (v ∷ vs) =
        IsBest-of (best_of (v ∷ vs) none) v vs (best_of-All (v ∷ vs) none)
          (best_of-Member (v ∷ vs) none)

module _ (n : Numeric) where
  open n use {F, lt, abs}

  present : Option F → List F → List F
  present none vs = vs
  present (some v) vs = v ∷ vs

  -- The values of a motor in the rows.
  unfoldable pub values_of : Motor → Units → List (F × Row) → List F
  unfolding present
  values_of motor unit [] = []
  values_of motor unit ((elapsed, row) ∷ rows) =
      present (motor_value n row motor unit) (values_of motor unit rows)

  -- The loop as it runs for one motor alone.
  entry_after : List F → Entry F → Entry F
  entry_after [] e = e
  entry_after (v ∷ vs) e = entry_after vs (update_entry n (some v) e)

  entry_after-present :
      (o : Option F) (vs : List F) (e : Entry F)
      → entry_after (present o vs) e ≡ entry_after vs (update_entry n o e)
  unfolding entry_after present update_entry
  entry_after-present none vs e = refl
  entry_after-present (some v) vs e = refl

  motors-add_row :
      (units : Motor → Units) (t : F) (row : Row) (s : Summary F) (motor : Motor)
      → (add_row n units (t, row) s).motors motor
        ≡ update_entry n (motor_value n row motor (units motor)) (s.motors motor)
  unfolding add_row update_motor update_time
  motors-add_row units t row s m1 = refl
  motors-add_row units t row s m2 = refl
  motors-add_row units t row s m3 = refl
  motors-add_row units t row s m4 = refl

  motors-add_rows :
      (units : Motor → Units) (rows : List (F × Row)) (s : Summary F) (motor : Motor)
      → (add_rows n units rows s).motors motor
        ≡ entry_after (values_of motor (units motor) rows) (s.motors motor)
  unfolding add_rows values_of entry_after
  motors-add_rows units [] s motor = refl
  motors-add_rows units ((t, row) ∷ rows) s motor =
      motors-add_rows units rows (add_row n units (t, row) s) motor
      ∙ ap (entry_after (values_of motor (units motor) rows)) (motors-add_row units t row s motor)
      ∙ sym (
          entry_after-present (motor_value n row motor (units motor))
            (values_of motor (units motor) rows) (s.motors motor))

  max_value-pick : (o : Option F) (v : F) → max_value n o v ≡ pick lt o v
  unfolding max_value pick
  max_value-pick none v = refl
  max_value-pick (some b) v = refl

  min_value-pick : (o : Option F) (v : F) → min_value n o v ≡ pick (λ a b. lt b a) o v
  unfolding min_value pick
  min_value-pick none v = refl
  min_value-pick (some b) v = refl

  max_abs-pick : (o : Option F) (v : F) → max_abs n o v ≡ pick (λ a b. lt (abs a) (abs b)) o v
  unfolding max_abs pick
  max_abs-pick none v = refl
  max_abs-pick (some b) v = refl

  positive-best_of :
      (vs : List F) (e : Entry F) → (entry_after vs e).peak_positive ≡ best_of lt vs e.peak_positive
  unfolding entry_after best_of update_entry
  positive-best_of [] e = refl
  positive-best_of (v ∷ vs) e =
      positive-best_of vs (update_entry n (some v) e)
      ∙ ap (λ x. best_of lt vs (some x)) (max_value-pick e.peak_positive v)

  negative-best_of :
      (vs : List F) (e : Entry F)
      → (entry_after vs e).peak_negative ≡ best_of (λ a b. lt b a) vs e.peak_negative
  unfolding entry_after best_of update_entry
  negative-best_of [] e = refl
  negative-best_of (v ∷ vs) e =
      negative-best_of vs (update_entry n (some v) e)
      ∙ ap (λ x. best_of (λ a b. lt b a) vs (some x)) (min_value-pick e.peak_negative v)

  abs-best_of :
      (vs : List F) (e : Entry F)
      → (entry_after vs e).peak_abs ≡ best_of (λ a b. lt (abs a) (abs b)) vs e.peak_abs
  unfolding entry_after best_of update_entry
  abs-best_of [] e = refl
  abs-best_of (v ∷ vs) e =
      abs-best_of vs (update_entry n (some v) e)
      ∙ ap (λ x. best_of (λ a b. lt (abs a) (abs b)) vs (some x)) (max_abs-pick e.peak_abs v)

  samples-length :
      (vs : List F) (e : Entry F) → (entry_after vs e).valid_samples ≡ e.valid_samples + length vs
  unfolding entry_after update_entry
  samples-length [] e = omega arith
  samples-length (v ∷ vs) e = omega (arith, samples-length vs (update_entry n (some v) e))

  -- With the order laws of floats: the summary of a recording counts the values of each motor, and its
  -- three peaks are a greatest, a least and a greatest by size among these values; a motor without
  -- values has no peaks.
  pub summary_peaks :
      OrderLaws n
      → (units : Motor → Units) (table : Table) (motor : Motor)
      → let e = (summarize n units table).motors motor in
        let vs = values_of motor (units motor) (iter_rows n table) in
        (e.valid_samples ≡ length vs)
        × IsBest lt e.peak_positive vs
        × IsBest (λ a b. lt b a) e.peak_negative vs
        × IsBest (λ a b. lt (abs a) (abs b)) e.peak_abs vs
  unfolding summarize
  summary_peaks laws units table motor =
      let vs = values_of motor (units motor) (iter_rows n table) in
      let start = fresh_entry n (units motor) in
      let counted : (entry_after vs start).valid_samples ≡ length vs =
        omega (arith, samples-length vs start) in
      rw (motors-add_rows units (iter_rows n table) (new n units) motor) (
        counted,
        rw (positive-best_of vs start) (best_of-IsBest lt laws.lt_irrefl laws.lt_trans vs),
        rw (negative-best_of vs start) (
            best_of-IsBest (λ a b. lt b a) laws.lt_irrefl (λ a b c h k. laws.lt_trans c b a k h)
              vs),
        rw (abs-best_of vs start) (
            best_of-IsBest (λ a b. lt (abs a) (abs b)) (λ a. laws.lt_irrefl (abs a))
              (λ a b c h k. laws.lt_trans (abs a) (abs b) (abs c) h k) vs),
      )
