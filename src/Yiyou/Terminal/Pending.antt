-- ===== src/Yiyou/Terminal/Pending.antt =====
-- What stands in the calibration file while the zero of a motor is being written.
use native.Mathlib.Nat.{mod-lt}
use bxi_car_v.Base.{
  ℕ, suc, zero, ◌<◌, true, Option, none, some, List, [], ◌∷◌, ◌≡◌, ◌⊎◌, inl, inr, refl, arith,
  ==_iff, length, contains, sym, subst, ◌∙◌,
}
use bxi_car_v.Base.Numeric.{Numeric}
use bxi_car_v.Base.Gate.{Gate, reject, pass, ◌>>=◌, ◌>>◌, Ends, Ends-bind, Ends-and, Ends-pass}
use bxi_car_v.Yiyou.Terminal.Safety.{Same, Calm, handle_polled-Quiet, handle_polled-Calm}
use bxi_car_v.Yiyou.Keys.{read, Key, ctrl_c, quit, zero_key, up, down, right, left}
use bxi_car_v.Yiyou.Calibration.{
  Failure, Lacks, remove_record_before_zero, remove-Lacks, Lacks-refused, Stored,
  require_home_records,
}
use bxi_car_v.Yiyou.Terminal.{
  hold, holding, zeroing, Busy, zeroing_slave, Terminal, Round, Next, again, finished, nth, on_file,
  read_keys, select_next, select_previous, selected_slave, send, set_busy, step_slave, zero_slave,
  act_on_keys, jog_busy, jog_idle, jog_keys, idle_keys, quit_idle, act_again, sent_if, jog_round,
  is_busy, interrupt_with, discard_pending, next_is, handle_backend_events, handle_polled,
  read_ready, keys_of, continue, run_jog,
}

nth-contains : (i : ℕ) (xs : List ℕ) → i < length xs → contains (nth i xs) xs ≡ true
unfolding nth
nth-contains i [] h = absurd (omega arith)
nth-contains zero (x ∷ xs) h = ground (arith, ==_iff x x)
nth-contains (suc i) (x ∷ xs) h = ground (arith, nth-contains i xs)

module _ (n : Numeric) where
  open n use {F}

  -- The selection is in range, and while a zero is written the file has no record of its slave.
  pub record IsConsistent (s : Terminal F) : Type 0 where
    pub in_range : s.selected_index < length s.slaves
    pub pending :
        (k : ℕ)
        → s.busy ≡ some (zeroing_slave k)
        → (contains k s.slaves ≡ true) × Lacks n s.interface k s.file

  select_next-in_range :
      (s : Terminal F)
      → s.selected_index < length s.slaves
      → (select_next n s).selected_index < length s.slaves
  unfolding select_next
  select_next-in_range s h = mod-lt _ (omega (arith, h))

  select_previous-in_range :
      (s : Terminal F)
      → s.selected_index < length s.slaves
      → (select_previous n s).selected_index < length s.slaves
  unfolding select_previous
  select_previous-in_range s h = mod-lt _ (omega (arith, h))

  on_file-Ends :
      (k : ℕ) (g : Gate Failure (Stored F) (Unit {0})) (s : Terminal F)
      → ((u : Stored F) (x : Unit {0}) → g ≡ pass x u → Lacks n s.interface k u)
      → Ends
          (λ t. Unit {0})
          (λ x t.
            (t.selected_index ≡ s.selected_index)
            × (t.slaves ≡ s.slaves)
            × (t.interface ≡ s.interface)
            × Lacks n s.interface k t.file)
          (on_file n g s)
  unfolding on_file
  on_file-Ends k (reject why f) s h = tt
  on_file-Ends k (pass x f) s h = (refl, refl, refl, h f x refl)

  abbrev EndsConsistent : {A : Type 0} → Gate Failure (Terminal F) A → Type 0
  EndsConsistent g = Ends (λ t. Unit {0}) (λ a t. IsConsistent t) g

  zeroed :
      (r : Round F) (s t : Terminal F)
      → s.selected_index < length s.slaves
      → t.selected_index ≡ s.selected_index
      → t.slaves ≡ s.slaves
      → t.interface ≡ s.interface
      → Lacks n s.interface (selected_slave n s) t.file
      → EndsConsistent (
          (send n r (zeroing (selected_slave n s))
              >> set_busy n (zeroing_slave (selected_slave n s)))
            t)
  unfolding send sent_if set_busy selected_slave
  zeroed r s t h a b c d = ground (arith, nth-contains s.selected_index s.slaves h)

  zero_slave-Consistent :
      (r : Round F) (s : Terminal F)
      → s.selected_index < length s.slaves
      → EndsConsistent (zero_slave n r s)
  unfolding zero_slave
  zero_slave-Consistent r s h =
      Ends-bind (λ t. Unit)
        (λ x t.
          (t.selected_index ≡ s.selected_index)
          × (t.slaves ≡ s.slaves)
          × (t.interface ≡ s.interface)
          × Lacks n s.interface (selected_slave n s) t.file)
        (λ t. Unit) (λ x t. IsConsistent t)
        (on_file n (remove_record_before_zero n r.disk s.interface (selected_slave n s) s.file) s)
        (λ x.
          send n r (zeroing (selected_slave n s))
          >> set_busy n (zeroing_slave (selected_slave n s)))
        (on_file-Ends (selected_slave n s) _ s
          (λ u x e. remove-Lacks n r.disk s.interface (selected_slave n s) s.file e))
        (λ t k. tt) (λ x t k. zeroed r s t h k.0 k.1 k.2 k.3)

  act_on_keys-Consistent :
      (r : Round F) (ks : List Key) (s : Terminal F)
      → s.busy ≡ none
      → s.selected_index < length s.slaves
      → EndsConsistent (act_on_keys n r ks s)
  unfolding act_on_keys send sent_if set_busy step_slave select_next select_previous
  act_on_keys-Consistent r [] s e h = ground arith
  act_on_keys-Consistent r (left ∷ ks) s e h =
      act_on_keys-Consistent r ks (select_previous n s) e (select_previous-in_range s h)
  act_on_keys-Consistent r (right ∷ ks) s e h =
      act_on_keys-Consistent r ks (select_next n s) e (select_next-in_range s h)
  act_on_keys-Consistent r (up ∷ ks) s e h = ground arith
  act_on_keys-Consistent r (down ∷ ks) s e h = ground arith
  act_on_keys-Consistent r (zero_key ∷ ks) s e h = zero_slave-Consistent r s h
  act_on_keys-Consistent r (quit ∷ ks) s e h = act_on_keys-Consistent r ks s e h
  act_on_keys-Consistent r (ctrl_c ∷ ks) s e h = act_on_keys-Consistent r ks s e h

  kept-Consistent : (s t : Terminal F) → Same n s t → Calm n s t → IsConsistent s → IsConsistent t
  kept-Consistent s t (a, b, c, d) (inl e) h = ground arith
  kept-Consistent s t (a, b, c, d) (inr (e, f)) h = record {
    in_range = ground arith;
    pending = λ k p.
        let (x, y) = h.pending k (sym e ∙ p) in
        (
          ground arith,
          subst (λ i. Lacks n i k t.file) (sym a) (subst (λ u. Lacks n s.interface k u) (sym f) y),
        );
  }

  polled :
      (r : Round F) (s : Terminal F)
      → Ends
          (λ t. Unit {0})
          (λ x t. Same n s t × Calm n s t)
          (handle_polled n r.events r.exit_code s)
  polled r s =
      Ends-and (Same n s) (λ x t. Calm n s t) _
        (handle_polled-Quiet n r.events r.exit_code s s (refl, refl, refl, refl))
        (handle_polled-Calm n r.events r.exit_code s)

  idle_keys-Consistent :
      (r : Round F) (ks : List Key) (s : Terminal F)
      → s.busy ≡ none
      → s.selected_index < length s.slaves
      → EndsConsistent (idle_keys n r ks s)
  unfolding idle_keys quit_idle act_again send sent_if next_is interrupt_with
  idle_keys-Consistent r ks s e h = ground (arith, act_on_keys-Consistent r ks s e h)

  jog_busy-Consistent :
      (r : Round F) (ks : List Key) (s : Terminal F)
      → IsConsistent s
      → EndsConsistent (jog_busy n r ks s)
  unfolding jog_busy interrupt_with discard_pending next_is handle_backend_events
  jog_busy-Consistent r ks s h = ground (arith, polled r (record s { buffer = [] }))

  still_idle :
      (r : Round F) (ks : List Key) (s t : Terminal F)
      → s.busy ≡ none
      → Calm n s t
      → IsConsistent t
      → EndsConsistent (idle_keys n r ks t)
  still_idle r ks s t e c h = idle_keys-Consistent r ks t (ground arith) h.in_range

  busy_cases : (b : Option Busy) → (b ≡ none) ⊎ (is_busy b ≡ true)
  busy_cases none = inl refl
  busy_cases (some x) = inr refl

  rebuffered :
      (s : Terminal F) (b : List ℕ) → IsConsistent s → IsConsistent (record s { buffer = b })
  rebuffered s b h = record { in_range = h.in_range; pending = h.pending }

  begun :
      (s : Terminal F)
      → s.selected_index < length s.slaves
      → IsConsistent (record s { busy = some holding; sent = hold ∷ s.sent })
  begun s h = record { in_range = h; pending = λ k p. absurd (cc p) }

  jog_idle-Consistent :
      (r : Round F) (ks : List Key) (s : Terminal F)
      → IsConsistent s
      → s.busy ≡ none
      → EndsConsistent (jog_idle n r ks s)
  unfolding jog_idle handle_backend_events
  jog_idle-Consistent r ks s h e =
      Ends-bind (λ t. Unit) (λ x t. Same n s t × Calm n s t) (λ t. Unit) (λ a t. IsConsistent t)
        (handle_polled n r.events r.exit_code s) (λ x. idle_keys n r ks) (polled r s) (λ t k. tt)
        (λ x t k. still_idle r ks s t e k.1 (kept-Consistent s t k.0 k.1 h))

  jog_keys-Consistent :
      (r : Round F) (ks : List Key) (s : Terminal F)
      → IsConsistent s
      → EndsConsistent (jog_keys n r ks s)
  unfolding jog_keys
  jog_keys-Consistent r ks s h = elim (busy_cases s.busy) [
    | inl e ↦ ground (arith, jog_idle-Consistent r ks s h e)
    | inr e ↦ ground (arith, jog_busy-Consistent r ks s h)
  ]

  jog_ready-Consistent :
      (r : Round F) (bytes : Option (List ℕ)) (s : Terminal F)
      → IsConsistent s
      → EndsConsistent ((read_ready n bytes >>= jog_keys n r) s)
  unfolding read_ready keys_of
  jog_ready-Consistent r none s h =
      jog_keys-Consistent r _ (record s { buffer = (read [] s.buffer).1 }) (rebuffered s _ h)
  jog_ready-Consistent r (some []) s h = tt
  jog_ready-Consistent r (some (b ∷ bs)) s h =
      jog_keys-Consistent r _ (record s { buffer = (read (b ∷ bs) s.buffer).1 }) (rebuffered s _ h)

  pub jog_round-Consistent :
      (r : Round F) (s : Terminal F) → IsConsistent s → EndsConsistent (jog_round n r s)
  unfolding jog_round read_keys
  jog_round-Consistent r s h = ground (arith, jog_ready-Consistent r r.bytes s h)

  continue-Consistent :
      (rs : List (Round F)) (v : Next) (s : Terminal F)
      → IsConsistent s
      → EndsConsistent (continue n (jog_round n) v rs s)
  unfolding continue
  continue-Consistent rs finished s h = h
  continue-Consistent [] again s h = h
  continue-Consistent (r ∷ rs) again s h =
      Ends-bind (λ t. Unit) (λ a t. IsConsistent t) (λ t. Unit) (λ a t. IsConsistent t)
        (jog_round n r s) (λ v. continue n (jog_round n) v rs) (jog_round-Consistent r s h)
        (λ t k. tt) (λ v t k. continue-Consistent rs v t k)

  run_jog-Consistent :
      (first : Round F) (rs : List (Round F)) (s : Terminal F)
      → s.selected_index < length s.slaves
      → EndsConsistent (run_jog n first rs s)
  unfolding run_jog send sent_if set_busy
  run_jog-Consistent first rs s h = ground (
    arith,
    continue-Consistent rs again (record s { busy = some holding; sent = hold ∷ s.sent })
        (begun s h),
  )

  -- Where the loop of `run_jog`, begun with a selection in range, comes to a state in which the zero of a
  -- slave is being written, whatever happened before, that slave is one of the tool's, the calibration
  -- file holds a document without a record of it, and `require_home_records` refuses any list of slaves
  -- with this one among them.
  pub zero_in_flight :
      (first : Round F) (rs : List (Round F)) (s : Terminal F) {t : Terminal F} {v : Next} (k : ℕ)
      → s.selected_index < length s.slaves
      → run_jog n first rs s ≡ pass v t
      → t.busy ≡ some (zeroing_slave k)
      → (contains k t.slaves ≡ true)
        × Lacks n t.interface k t.file
        × ((homed : List ℕ)
            → contains k homed ≡ true
            → (why : Failure) × (require_home_records n t.interface homed t.file
                ≡ reject why t.file))
  zero_in_flight first rs s {t = t} k h e b =
      let c = Ends-pass (λ t. Unit) (λ a t. IsConsistent t) _ (run_jog-Consistent first rs s h) e in
      let (known, gone) = c.pending k b in
      (known, gone, λ homed m. Lacks-refused n t.interface k homed t.file m gone)
