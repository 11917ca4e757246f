-- ===== src/Yiyou/Terminal/Safety.antt =====
-- What holds of the loops through any rounds: what they send, and what stands in the calibration file
-- while the zero of a motor is being written.
use bxi_car_v.Base.{
  ℕ, Bool, true, false, Option, none, some, List, [], ◌∷◌, ◌≡◌, ◌∙◌, ◌⊎◌, inl, inr, refl, arith,
}
use bxi_car_v.Base.Value.{Fields, get}
use bxi_car_v.Base.Numeric.{Numeric}
use bxi_car_v.Base.Gate.{
  Gate, reject, pass, ◌>>=◌, ◌>>◌, Ends, Ends-bind, After, Keeps, Keeps-bind, After-bind, Ends-map,
}
use bxi_car_v.Yiyou.Keys.{read, Key, ctrl_c, quit, zero_key, up, down, right, left}
use bxi_car_v.Yiyou.Calibration.{Failure, Disk, Axis}
use bxi_car_v.Yiyou.Terminal.{
  Command, interrupt, Terminal, Round, Act, need, on_file, known_axis, an_int, moved, update_axis,
  keep_record, zero_done, command_done, idle, apply_done_event, fed_back, handle_event,
  handle_events, exited, handle_polled, handle_backend_events, read_keys, read_ready, keys_of,
  select_next, select_previous, send, set_busy, step_slave, zero_slave, act_on_keys, jog_busy,
  jog_idle, jog_round, is_busy, jog_keys, idle_keys, quit_idle, act_again, sent_if, interrupt_with,
  discard_pending, next_is,
}

module _ (n : Numeric) where
  open n use {F}

  -- An action leaves the connection, the selection and the log as they are.
  abbrev pub Same : Terminal F → Terminal F → Type 0
  Same s t =
      (t.interface ≡ s.interface)
      × (t.slaves ≡ s.slaves)
      × (t.selected_index ≡ s.selected_index)
      × (t.sent ≡ s.sent)

  abbrev Quiet : {A : Type 0} → Act n A → Type 0
  Quiet m = (o : Terminal F) → Keeps (Same o) m

  -- A command is under way only if it was before, and then the file is the one that was.
  abbrev pub Calm : Terminal F → Terminal F → Type 0
  Calm s t = (t.busy ≡ none) ⊎ (t.busy ≡ s.busy) × (t.file ≡ s.file)

  moved-Quiet : (e : Fields F) (old : Axis F) → Quiet (moved n e old)
  unfolding moved need
  moved-Quiet e old o s h = ground arith

  update_axis-Quiet : (e : Fields F) (old : Option (Axis F)) → Quiet (update_axis n e old)
  unfolding update_axis
  update_axis-Quiet e none o s h = h
  update_axis-Quiet e (some old) o s h = moved-Quiet e old o s h

  keep_record-Quiet : (d : Disk) (k : _) (a : Axis F) → Quiet (keep_record n d k a)
  unfolding keep_record on_file
  keep_record-Quiet d k a o s h = ground arith

  zero_done-Quiet : (e : Fields F) (d : Disk) → Quiet (zero_done n e d)
  unfolding zero_done need keep_record on_file
  zero_done-Quiet e d o s h = ground arith

  command_done-Quiet : (e : Fields F) (d : Disk) → Quiet (command_done n e d)
  unfolding command_done
  command_done-Quiet e d o s h = ground (arith, zero_done-Quiet e d o s)

  fed_back-Quiet : (e : Fields F) → Quiet (fed_back n e)
  unfolding fed_back need
  fed_back-Quiet e o s h = ground arith

  apply_done_event-Quiet : (e : Fields F) (d : Disk) → Quiet (apply_done_event n e d)
  unfolding apply_done_event idle
  apply_done_event-Quiet e d o =
      Keeps-bind (Same o) (λ s. update_axis n e (known_axis n _ s) s) _
        (λ s h. update_axis-Quiet e _ o s h)
        (λ x. Keeps-bind (Same o) (command_done n e d) _ (command_done-Quiet e d o) (λ y s h. h))

  abbrev EndsIdle : Gate Failure (Terminal F) (Unit {0}) → Type 0
  EndsIdle g = Ends (λ t. Unit {0}) (λ x t. t.busy ≡ none) g

  EndsIdle-elim :
      (g : Gate Failure (Terminal F) (Unit {0})) (k : Act n (Unit {0}))
      → ((t : Terminal F) → EndsIdle (k t))
      → EndsIdle (elim g [ reject why t ↦ reject why t | pass a t ↦ k t ])
  EndsIdle-elim (reject why t) k h = tt
  EndsIdle-elim (pass a t) k h = h t

  EndsIdle-bind :
      (m k : Act n (Unit {0})) (s : Terminal F)
      → ((t : Terminal F) → EndsIdle (k t))
      → EndsIdle ((m >> k) s)
  EndsIdle-bind m k s h = EndsIdle-elim (m s) k h

  apply_done_event-idle :
      (e : Fields F) (d : Disk) (s : Terminal F) → EndsIdle (apply_done_event n e d s)
  unfolding apply_done_event idle
  apply_done_event-idle e d s =
      EndsIdle-bind (λ s. update_axis n e (known_axis n (an_int n (get "slave" e)) s) s)
        (command_done n e d >> idle n) s
        (λ t. EndsIdle-bind (command_done n e d) (idle n) t (λ u. refl))

  handle_event-Quiet : (e : Fields F) (d : Disk) → Quiet (handle_event n e d)
  unfolding handle_event idle
  handle_event-Quiet e d o s h =
      ground (arith, apply_done_event-Quiet e d o s h, fed_back-Quiet e o s h)

  fed_back-Calm :
      (e : Fields F) (s : Terminal F) → Ends (λ t. Unit) (λ x t. Calm s t) (fed_back n e s)
  unfolding fed_back need
  fed_back-Calm e s = ground arith

  handle_event-Calm :
      (e : Fields F) (d : Disk) (s : Terminal F)
      → Ends (λ t. Unit) (λ x t. Calm s t) (handle_event n e d s)
  unfolding handle_event idle
  handle_event-Calm e d s = ground (arith, fed_back-Calm e s, apply_done_event-idle e d s)

  handle_events-Quiet : (es : List (Fields F × Disk)) → Quiet (handle_events n es)
  unfolding handle_events
  handle_events-Quiet [] o s h = h
  handle_events-Quiet ((e, d) ∷ es) o s h =
      Keeps-bind (Same o) (handle_event n e d) (λ x. handle_events n es) (handle_event-Quiet e d o)
        (λ x. handle_events-Quiet es o) s h

  Calm-trans : (s t u : Terminal F) → Calm s t → Calm t u → Calm s u
  Calm-trans s t u (inl a) (inl b) = inl b
  Calm-trans s t u (inl a) (inr (b, c)) = inl (b ∙ a)
  Calm-trans s t u (inr (a, b)) (inl c) = inl c
  Calm-trans s t u (inr (a, b)) (inr (c, d)) = inr (c ∙ a, d ∙ b)

  handle_events-Calm :
      (es : List (Fields F × Disk)) (s : Terminal F)
      → Ends (λ t. Unit) (λ x t. Calm s t) (handle_events n es s)
  unfolding handle_events
  handle_events-Calm [] s = inr (refl, refl)
  handle_events-Calm ((e, d) ∷ es) s =
      Ends-bind (λ t. Unit) (λ x t. Calm s t) (λ t. Unit) (λ x t. Calm s t) (handle_event n e d s)
        (λ x. handle_events n es) (handle_event-Calm e d s) (λ t h. tt)
        (λ x t h.
          Ends-map (λ t. Unit) (λ x u. Calm t u) (λ t. Unit) (λ x u. Calm s u) _
            (handle_events-Calm es t) (λ u k. tt) (λ y u k. Calm-trans s t u h k))

  exited-Quiet : (saw : Bool) (code : _) → Quiet (exited n saw code)
  unfolding exited
  exited-Quiet saw code o s h = ground arith

  pub handle_polled-Quiet :
      (es : Option (List (Fields F × Disk))) (code : _) → Quiet (handle_polled n es code)
  unfolding handle_polled
  handle_polled-Quiet none code o s h = h
  handle_polled-Quiet (some []) code o s h = exited-Quiet false code o s h
  handle_polled-Quiet (some (e ∷ es)) code o s h =
      Keeps-bind (Same o) (handle_events n (e ∷ es)) (λ x. exited n true code)
        (handle_events-Quiet (e ∷ es) o) (λ x. exited-Quiet true code o) s h

  exited-Calm :
      (saw : Bool) (code : _) (s : Terminal F)
      → Ends (λ t. Unit) (λ x t. Calm s t) (exited n saw code s)
  unfolding exited
  exited-Calm saw code s = ground arith

  pub handle_polled-Calm :
      (es : Option (List (Fields F × Disk))) (code : _) (s : Terminal F)
      → Ends (λ t. Unit) (λ x t. Calm s t) (handle_polled n es code s)
  unfolding handle_polled
  handle_polled-Calm none code s = tt
  handle_polled-Calm (some []) code s = exited-Calm false code s
  handle_polled-Calm (some (e ∷ es)) code s =
      Ends-bind (λ t. Unit) (λ x t. Calm s t) (λ t. Unit) (λ x t. Calm s t)
        (handle_events n (e ∷ es) s) (λ x. exited n true code) (handle_events-Calm (e ∷ es) s)
        (λ t h. tt)
        (λ x t h.
          Ends-map (λ t. Unit) (λ x u. Calm t u) (λ t. Unit) (λ x u. Calm s u) _
            (exited-Calm true code t) (λ u k. tt) (λ y u k. Calm-trans s t u h k))

  -- The state that a round may end in, having begun in `s`: at most one line more in the log, and
  -- during a command only the interrupt.
  abbrev pub Sparing : Terminal F → Terminal F → Type 0
  Sparing s t =
      (t.sent ≡ s.sent)
      ⊎ (c : Command) × (t.sent ≡ c ∷ s.sent) × ((is_busy s.busy ≡ false) ⊎ (c ≡ interrupt))

  act_on_keys-Sparing :
      (r : Round F) (ks : List Key) (s : Terminal F)
      → After
          (λ t. (t.sent ≡ s.sent) ⊎ (c : Command) × (t.sent ≡ c ∷ s.sent))
          (act_on_keys n r ks s)
  unfolding act_on_keys send sent_if set_busy on_file step_slave zero_slave select_next
      select_previous
  act_on_keys-Sparing r [] s = inl refl
  act_on_keys-Sparing r (left ∷ ks) s = act_on_keys-Sparing r ks (select_previous n s)
  act_on_keys-Sparing r (right ∷ ks) s = act_on_keys-Sparing r ks (select_next n s)
  act_on_keys-Sparing r (up ∷ ks) s = ground arith
  act_on_keys-Sparing r (down ∷ ks) s = ground arith
  act_on_keys-Sparing r (zero_key ∷ ks) s = ground arith
  act_on_keys-Sparing r (quit ∷ ks) s = act_on_keys-Sparing r ks s
  act_on_keys-Sparing r (ctrl_c ∷ ks) s = act_on_keys-Sparing r ks s

  jog_busy-Sparing :
      (r : Round F) (ks : List Key) (s : Terminal F)
      → is_busy s.busy ≡ true
      → After (Sparing s) (jog_busy n r ks s)
  unfolding jog_busy interrupt_with discard_pending next_is handle_backend_events
  jog_busy-Sparing r ks s h = ground (
    arith,
    handle_polled-Quiet r.events r.exit_code s (record s { buffer = [] }) (refl, refl, refl, refl),
  )

  quit_idle-Sparing :
      (r : Round F) (s t : Terminal F)
      → is_busy s.busy ≡ false
      → t.sent ≡ s.sent
      → After (Sparing s) (quit_idle n r t)
  unfolding quit_idle send sent_if next_is
  quit_idle-Sparing r s t h e = ground arith

  act_again-Sparing :
      (r : Round F) (ks : List Key) (s t : Terminal F)
      → is_busy s.busy ≡ false
      → t.sent ≡ s.sent
      → After (Sparing s) (act_again n r ks t)
  unfolding act_again next_is
  act_again-Sparing r ks s t h e = ground (arith, act_on_keys-Sparing r ks t)

  idle_keys-Sparing :
      (r : Round F) (ks : List Key) (s t : Terminal F)
      → is_busy s.busy ≡ false
      → t.sent ≡ s.sent
      → After (Sparing s) (idle_keys n r ks t)
  unfolding idle_keys interrupt_with
  idle_keys-Sparing r ks s t h e =
      ground (arith, quit_idle-Sparing r s t h e, act_again-Sparing r ks s t h e)

  jog_idle-Sparing :
      (r : Round F) (ks : List Key) (s : Terminal F)
      → is_busy s.busy ≡ false
      → After (Sparing s) (jog_idle n r ks s)
  unfolding jog_idle handle_backend_events
  jog_idle-Sparing r ks s h =
      After-bind (Same s) (Sparing s) (handle_polled n r.events r.exit_code s)
        (λ x. idle_keys n r ks)
        (handle_polled-Quiet r.events r.exit_code s s (refl, refl, refl, refl)) (λ t k. inl k.3)
        (λ x t k. idle_keys-Sparing r ks s t h k.3)

  jog_keys-Sparing :
      (r : Round F) (ks : List Key) (s : Terminal F) → After (Sparing s) (jog_keys n r ks s)
  unfolding jog_keys
  jog_keys-Sparing r ks s = ground (arith, jog_busy-Sparing r ks s, jog_idle-Sparing r ks s)

  jog_read-Sparing :
      (r : Round F) (bytes : List ℕ) (s : Terminal F)
      → After (Sparing s) ((keys_of n bytes >>= jog_keys n r) s)
  unfolding keys_of
  jog_read-Sparing r bytes s = jog_keys-Sparing r _ (record s { buffer = (read bytes s.buffer).1 })

  jog_ready-Sparing :
      (r : Round F) (bytes : Option (List ℕ)) (s : Terminal F)
      → After (Sparing s) ((read_ready n bytes >>= jog_keys n r) s)
  unfolding read_ready
  jog_ready-Sparing r none s = jog_read-Sparing r [] s
  jog_ready-Sparing r (some []) s = inl refl
  jog_ready-Sparing r (some (b ∷ bs)) s = jog_read-Sparing r (b ∷ bs) s

  -- A round of `run_jog`, however it ends, sends the backend at most one line, and while a command is
  -- under way nothing but an interrupt.
  pub jog_round-Sparing : (r : Round F) (s : Terminal F) → After (Sparing s) (jog_round n r s)
  unfolding jog_round read_keys
  jog_round-Sparing r s = ground (arith, jog_ready-Sparing r r.bytes s)
