-- ===== src/Yiyou/Ready/Axes.antt =====
-- The axes that `wait_ready` returns.
use bxi_car_v.Base.{subst, is_none, if◌then◌else◌}
use bxi_car_v.Base.{
  ℕ, Bool, true, false, ◌&&◌, ◌||◌, not, Option, none, some, List, [], ◌∷◌, ◌≡◌, ◌∙◌, sym, refl,
  arith, ==_iff, contains, All, Bool-cases, inl, inr,
}
use bxi_car_v.Base.Int.{ℤ, pos, eq_ℤ, eq_ℤ-sound}
use bxi_car_v.Base.Value.{Value, dict, list, Items, nil, cons, Fields, item, get, is_str}
use bxi_car_v.Base.Numeric.{Numeric}
use bxi_car_v.Yiyou.Calibration.{user_error, Axis, axis_at}
use bxi_car_v.Yiyou.Ready.{
  Outcome, good, raised, ◌>>=◌, check, insert, sorted, same_list, axis_from_json, put_axis, gather,
  slaves_of, naturals, expected_only, read_ready, ready_events, Poll, polled, polled_events,
  wait_ready, axis_of, with_slave, with_identity, with_scale, int_read, float_read, identity_read,
  from_text,
}

-- `z in xs`
member : ℤ → List ℤ → Bool
member z [] = false
member z (x ∷ xs) = eq_ℤ x z || member z xs

member-insert : (z x : ℤ) (xs : List ℤ) → member z (insert x xs) ≡ (eq_ℤ x z || member z xs)
unfolding member insert
member-insert z x [] = refl
member-insert z x (y ∷ ys) = ground (arith, member-insert z x ys)

member-sorted : (z : ℤ) (xs : List ℤ) → member z (sorted xs) ≡ member z xs
unfolding member sorted
member-sorted z [] = refl
member-sorted z (x ∷ xs) = ground (arith, member-insert z x (sorted xs), member-sorted z xs)

member-same_list : (z : ℤ) (xs ys : List ℤ) → same_list xs ys ≡ true → member z xs ≡ member z ys
unfolding member same_list
member-same_list z [] [] h = refl
member-same_list z [] (y ∷ ys) h = absurd (cc h)
member-same_list z (x ∷ xs) [] h = absurd (cc h)
member-same_list z (x ∷ xs) (y ∷ ys) h = ground (arith, eq_ℤ-sound x y, member-same_list z xs ys)

good-bind :
    {A B : Type 0} (m : Outcome A) (f : A → Outcome B) {b : B}
    → (m >>= f) ≡ good b
    → (a : A) × (m ≡ good a) × (f a ≡ good b)
good-bind (good a) f h = (a, refl, h)
good-bind (raised why) f h = absurd (cc h)

check-good : (test : Bool) {x : Unit {0}} → check test ≡ good x → test ≡ true
unfolding check
check-good true h = refl
check-good false h = absurd (cc h)

module _ (n : Numeric) where
  open n use {F, le, is_finite, lit}

  -- A scale that divides.
  abbrev pub HasScale : Axis F → Type 0
  HasScale a = (is_finite a.scale ≡ true) × (le a.scale (lit 0 0) ≡ false)

  member-naturals :
      (k : ℕ) (ks : List ℕ) → contains k ks ≡ true → member (pos k) (naturals n ks) ≡ true
  unfolding member naturals
  member-naturals k [] h = absurd (cc h)
  member-naturals k (x ∷ xs) h = ground (arith, ==_iff k x, ==_iff x k, member-naturals k xs)

  axis_of_member :
      (z : ℤ) (axes : List (Axis F))
      → member z (slaves_of n axes) ≡ true
      → All HasScale axes
      → (a : Axis F) × (axis_at n z axes ≡ some a) × HasScale a
  unfolding member slaves_of axis_at
  axis_of_member z [] h k = absurd (cc h)
  axis_of_member z (a ∷ rest) h (k, ks) = elim (Bool-cases (eq_ℤ a.slave z)) [
    | inl e ↦ rw e (a, refl, k)
    | inr e ↦ let (x, f, g) = axis_of_member z rest (ground arith) ks in (x, rw e f, g)
  ]

  put_axis-All :
      (axis : Axis F) (axes : List (Axis F))
      → HasScale axis
      → All HasScale axes
      → All HasScale (put_axis n axis axes)
  unfolding put_axis
  put_axis-All axis [] h k = (h, k)
  put_axis-All axis (a ∷ rest) h (k, ks) = ground (arith, put_axis-All axis rest h ks)

  with_scale-HasScale :
      (d : Fields F) (slave : ℤ) (raw : Value F) (scale : F) {axis : Axis F}
      → with_scale n d slave raw scale ≡ good axis
      → HasScale axis
  unfolding with_scale axis_of
  with_scale-HasScale d slave raw scale h =
      let (position, e1, h1) = good-bind (int_read n (item "position" d)) _ h in
      let (identity, e2, h2) = good-bind (identity_read n raw) _ h1 in
      let (x, e3, h3) = good-bind (check (is_finite scale && not (le scale (lit 0 0)))) _ h2 in
      let sound = check-good (is_finite scale && not (le scale (lit 0 0))) e3 in ground arith

  axis_from_json-HasScale :
      (v : Value F) {axis : Axis F} → axis_from_json n v ≡ good axis → HasScale axis
  unfolding axis_from_json
  axis_from_json-HasScale (dict d) h =
      let (slave, e1, h1) =
        good-bind (int_read n (item "slave" d)) (λ slave. with_slave n d slave) h in
      let (raw, e2, h2) =
        good-bind (from_text (item "identity" d)) (λ raw. with_identity n d slave raw) h1 in
      let (scale, e3, h3) =
        good-bind (float_read n (item "scale" d)) (λ scale. with_scale n d slave raw scale) h2 in
      with_scale-HasScale d slave raw scale h3
  axis_from_json-HasScale _ h = absurd (cc h)

  gather-All :
      (vs : Items F) (axes : List (Axis F)) {result : List (Axis F)}
      → gather n vs axes ≡ good result
      → All HasScale axes
      → All HasScale result
  unfolding gather
  gather-All nil axes h k = ground arith
  gather-All (cons v vs) axes h k =
      let (axis, e, rest) =
        good-bind (axis_from_json n v) (λ axis. gather n vs (put_axis n axis axes)) h in
      gather-All vs (put_axis n axis axes) rest
        (put_axis-All axis axes (axis_from_json-HasScale v e) k)

  axis_of_expected :
      (expected : List ℕ) (found : List (Axis F)) (k : ℕ) {axes : List (Axis F)}
      → contains k expected ≡ true
      → member (pos k) (sorted (slaves_of n found)) ≡ member (pos k) (sorted (naturals n expected))
      → good found ≡ good axes
      → All HasScale found
      → (a : Axis F) × (axis_at n (pos k) axes ≡ some a) × HasScale a
  axis_of_expected expected found k c listed same all =
      let known : member (pos k) (slaves_of n found) ≡ true =
        sym (member-sorted (pos k) (slaves_of n found))
        ∙ listed
        ∙ member-sorted (pos k) (naturals n expected)
        ∙ member-naturals k expected c in
      let (a, e, h) = axis_of_member (pos k) found known all in (a, ground arith, h)

  read_ready-axes :
      (expected : List ℕ) (v : Value F) (k : ℕ) {axes : List (Axis F)}
      → read_ready n expected v ≡ good axes
      → contains k expected ≡ true
      → (a : Axis F) × (axis_at n (pos k) axes ≡ some a) × HasScale a
  unfolding read_ready expected_only
  read_ready-axes expected (list raw) k h c =
      let (found, e, rest) = good-bind (gather n raw []) (expected_only n expected) h in
      let (x, e1, same) =
        good-bind (check (same_list (sorted (slaves_of n found)) (sorted (naturals n expected))))
          (λ _. good found) rest in
      let listed =
        member-same_list (pos k) (sorted (slaves_of n found)) (sorted (naturals n expected))
          (check-good _ e1) in
      axis_of_expected expected found k c listed same (gather-All raw [] e tt)
  read_ready-axes expected _ k h c = absurd (cc h)

  -- What holds of the axes, if there are any yet.
  abbrev Answers : (List (Axis F) → Type 0) → Option (Outcome (List (Axis F))) → Type 0
  Answers P none = Unit
  Answers P (some (raised why)) = Unit
  Answers P (some (good axes)) = P axes

  abbrev AxisOf : ℕ → List (Axis F) → Type 0
  AxisOf k axes = (a : Axis F) × (axis_at n (pos k) axes ≡ some a) × HasScale a

  Answers-good :
      (P : List (Axis F) → Type 0) (r : Outcome (List (Axis F)))
      → ((axes : List (Axis F)) → r ≡ good axes → P axes)
      → Answers P (some r)
  Answers-good P (good axes) h = h axes refl
  Answers-good P (raised why) h = tt

  Answers-if :
      (P : List (Axis F) → Type 0) (b : Bool) (x y : Option (Outcome (List (Axis F))))
      → Answers P x
      → Answers P y
      → Answers P (if b then x else y)
  Answers-if P true x y h k = h
  Answers-if P false x y h k = k

  Answers-first :
      (P : List (Axis F) → Type 0) (x y : Option (Outcome (List (Axis F))))
      → Answers P x
      → Answers P y
      → Answers P (elim x [ some r ↦ some r | none ↦ y ])
  Answers-first P none y h k = k
  Answers-first P (some r) y h k = h

  module _ (expected : List ℕ) (k : ℕ) (c : contains k expected ≡ true) where
    ready_events-axes : (es : List (Fields F)) → Answers (AxisOf k) (ready_events n expected es)
    unfolding ready_events
    ready_events-axes [] = tt
    ready_events-axes (e ∷ es) =
        Answers-if (AxisOf k) (is_str "error" (get "event" e)) (some (raised user_error))
          (if not (is_str "ready" (get "event" e))
            then ready_events n expected es
            else some (read_ready n expected (get "axes" e)))
          tt
          (Answers-if (AxisOf k) (not (is_str "ready" (get "event" e))) (ready_events n expected es)
            (some (read_ready n expected (get "axes" e))) (ready_events-axes es)
            (Answers-good (AxisOf k) (read_ready n expected (get "axes" e))
              (λ axes h. read_ready-axes expected (get "axes" e) k h c)))

    events-axes :
        (es : Option (List (Fields F))) (code : Option ℤ)
        → Answers (AxisOf k) (polled_events n expected es code)
    unfolding polled_events
    events-axes none code = tt
    events-axes (some es) code =
        Answers-first (AxisOf k) (ready_events n expected es)
          (if is_none code then none else some (raised user_error)) (ready_events-axes es)
          (Answers-if (AxisOf k) (is_none code) none (some (raised user_error)) tt tt)

    polls-axes : (ps : List (Poll n)) → Answers (AxisOf k) (wait_ready n expected ps)
    unfolding wait_ready polled
    polls-axes [] = tt
    polls-axes (p ∷ ps) =
        Answers-first (AxisOf k) (polled n expected p) (wait_ready n expected ps)
          (Answers-if (AxisOf k) (not p.in_time) (some (raised user_error))
            (polled_events n expected p.events p.exit_code) tt (events-axes p.events p.exit_code))
          (polls-axes ps)

  found_eq : (found axes : List (Axis F)) → some (good found) ≡ some (good axes) → found ≡ axes
  found_eq found axes e = ground arith

  Answers-some :
      (P : List (Axis F) → Type 0) (r : Option (Outcome (List (Axis F)))) {axes : List (Axis F)}
      → Answers P r
      → r ≡ some (good axes)
      → P axes
  Answers-some P none h e = absurd (cc e)
  Answers-some P (some (raised why)) h e = absurd (cc e)
  Answers-some P (some (good found)) h e = subst P (found_eq found _ e) h

  -- When `wait_ready` returns, every requested slave has an axis, whose scale is finite and positive.
  pub ready_axes :
      (expected : List ℕ) (ps : List (Poll n)) (k : ℕ) {axes : List (Axis F)}
      → wait_ready n expected ps ≡ some (good axes)
      → contains k expected ≡ true
      → (a : Axis F) × (axis_at n (pos k) axes ≡ some a) × HasScale a
  ready_axes expected ps k h c =
      Answers-some (AxisOf k) (wait_ready n expected ps) (polls-axes expected k c ps) h
