-- ===== src/Ota/Task.antt =====
-- `wait_for_upload` of publish_ota.py. Each turn of its loop is given what the clock and the server say
-- in it.
use bxi_car_v.Base.{
  ℕ, Bool, true, false, ◌||◌, not, Option, none, some, List, [], ◌∷◌, ◌≡◌, ◌⊎◌, inl, inr, refl,
  arith, ltb, ◌==◌, ==_iff, Bool-cases, if◌then◌else◌,
}
use bxi_car_v.Base.Int.{pos}
use bxi_car_v.Base.Value.{Value, int, dict, get}

-- A turn: whether time remains before the request, the task that it returns (`none` where the request
-- fails), and whether time remains after it.
pub record Turn (F : Type 0) : Type 0 where
  pub before : Bool
  pub task : Option (Value F)
  pub after : Bool

-- How the wait ends; `waiting` where the turns given do not decide it.
pub data Wait : Type 0 where
  done failed waiting : Wait

on_state : Option ℕ → Wait → Wait
on_state none rest = failed
on_state (some k) rest = if k == 2 then done else if k == 4 || k == 7 then failed else rest

on_state-done :
    (o : Option ℕ) (rest : Wait)
    → on_state o rest ≡ done
    → (o ≡ some 2) ⊎ (k : ℕ) × (o ≡ some k) × (k == 4 || k == 7 ≡ false) × (rest ≡ done)
unfolding on_state
on_state-done none rest h = absurd (cc h)
on_state-done (some k) rest h = elim (Bool-cases (k == 2)) [
  | inl e ↦ inl (ground (arith, ==_iff k 2))
  | inr e ↦ inr (k, refl, ground arith, ground arith)
]

guarded :
    (a b : Bool) (w : Wait)
    → (if not a then failed else if not b then failed else w) ≡ done
    → (a ≡ true) × (b ≡ true) × (w ≡ done)
guarded true true w h = (refl, refl, h)
guarded true false w h = absurd (cc h)
guarded false b w h = absurd (cc h)

module _ {F : Type 0} where
  in_range : Value F → Option ℕ
  in_range (int (pos k)) = if ltb k 10 then some k else none
  in_range _ = none

  -- The state of a task, `none` where it is no int (a bool is none) in the range.
  unfoldable pub state_of : Option (Value F) → Option ℕ
  unfolding in_range
  state_of (some (dict d)) = in_range (get "state" d)
  state_of _ = none

  unfoldable pub wait_for_upload : List (Turn F) → Wait
  unfolding on_state state_of
  wait_for_upload [] = waiting
  wait_for_upload (t ∷ ts) =
      let rest = wait_for_upload ts in
      if not t.before
      then failed
      else if not t.after
      then failed
      else on_state (state_of t.task) rest

  -- The turns reach a success: each is in time, the last has the state 2, and those before it have a
  -- state that is not terminal.
  abbrev pub Succeeds : List (Turn F) → Type 0
  Succeeds [] = ⊥
  Succeeds (t ∷ ts) =
      (t.before ≡ true)
      × (t.after ≡ true)
      × ((state_of t.task ≡ some 2)
          ⊎ (k : ℕ) × (state_of t.task ≡ some k) × (k == 4 || k == 7 ≡ false) × Succeeds ts)

  -- The wait for a task returns only where the task succeeded in time, its earlier states having been
  -- neither canceled nor failed.
  pub upload_succeeded : (ts : List (Turn F)) → wait_for_upload ts ≡ done → Succeeds ts
  unfolding wait_for_upload
  upload_succeeded [] h = absurd (cc h)
  upload_succeeded (t ∷ ts) h =
      let (a, b, w) =
        guarded t.before t.after (on_state (state_of t.task) (wait_for_upload ts)) h in
      elim (on_state-done (state_of t.task) (wait_for_upload ts) w) [
        | inl e ↦ (a, b, inl e)
        | inr (k, e, live, rest) ↦ (a, b, inr (k, e, live, upload_succeeded ts rest))
      ]
