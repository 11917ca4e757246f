-- ===== src/Tracking/Replay.antt =====
-- The device time stamp as the identity of a frame.
use bxi_car_v.Base.{
  true, false, Option, none, some, List, [], ◌∷◌, ◌≡◌, refl, arith, Option-cases, Bool-cases, inl,
  inr,
}
use bxi_car_v.Base.Gate.{Gate, reject, pass, After, Keeps, pass_of_bind, After-pass}
use bxi_car_v.Base.Value.{Fields, as_dict, get}
use bxi_car_v.Base.Numeric.{Numeric, Vec3, number, number_finite, OrderLaws}
use bxi_car_v.Tracking.Config.{Config}
use bxi_car_v.Tracking.Tracker.{Mode, Tracker, Reason, cleared, invalidate}
use bxi_car_v.Tracking.Evaluate.{
  Aim, times, detection_dict, stamp_order, device_stamp, gates, accept, conclude,
}
use bxi_car_v.Tracking.Keeps.{IsStable, rest-Keeps}
use bxi_car_v.Tracking.Session.{Call, call, call_gates, call-eq-conclude, gates-After, run}
use bxi_car_v.Tracking.Fresh.{target-IsFresh, stamp_pass, dict_pass, call_pass}

module _ (n : Numeric) (laws : OrderLaws n) (cfg : Config n.F) (mode : Mode) where
  open n use {F, lt, le}

  -- The stamp kept is finite and not before `f`.
  abbrev Seen : F → Tracker F → Type 0
  Seen f s =
      (last : F) × (s.last_device_timestamp ≡ some last)
      × (n.is_finite last ≡ true)
      × (le f last ≡ true)

  Seen-stable : (f : F) → IsStable (Seen f)
  unfolding cleared
  Seen-stable f = record {
    at_now = λ s t h. h;
    at_frame = λ s t h. h;
    at_details = λ s d h. h;
    at_cleared = λ s h. h;
  }

  later_Seen :
      (f old new : F)
      → n.is_finite old ≡ true
      → n.is_finite new ≡ true
      → le f old ≡ true
      → le new old ≡ false
      → le f new ≡ true
  later_Seen f old new fo fn a b =
      laws.le_of_lt f new (laws.le_lt_trans f old new a (laws.lt_of_not-le new old fn fo b))

  stamp_order-Seen :
      (f : F) (o : Option F)
      → ((t : F) → o ≡ some t → n.is_finite t ≡ true)
      → Keeps (Seen f) (stamp_order n o)
  unfolding stamp_order
  stamp_order-Seen f none read s h = h
  stamp_order-Seen f (some t) read s (last, e, finite, le_last) = elim (Bool-cases (le t last)) [
    | inl old ↦ ground arith
    | inr later ↦
        let grown = later_Seen f last t finite (read t refl) le_last later in
        let ready = read t refl in ground arith
  ]

  device_stamp-Seen : (f : F) (d : Fields F) → Keeps (Seen f) (device_stamp n d)
  unfolding device_stamp
  device_stamp-Seen f d =
      stamp_order-Seen f (number n (get "device_timestamp_ms" d)) (λ t e. number_finite n _ e)

  conclude-Seen :
      (f : F) (g : Gate Reason (Tracker F) (Aim F)) → After (Seen f) g → Seen f (conclude n cfg g).0
  unfolding conclude accept invalidate
  conclude-Seen f (reject why s) h = h
  conclude-Seen f (pass aim s) (last, e, h, k) = (last, ground arith, h, k)

  run-Seen :
      (f : F) (cs : List (Call F)) (s : Tracker F) (why : List Reason)
      → Seen f s
      → Seen f (run n cfg mode cs s why).0
  unfolding run
  run-Seen f [] s why h = h
  run-Seen f (c ∷ cs) s why h = run-Seen f cs (call n cfg mode c s).0 _ (
      rw call-eq-conclude (
        conclude-Seen f (call_gates n cfg mode c s)
          (gates-After n cfg mode (Seen f) (Seen-stable f) (device_stamp-Seen f) c s h)))

  gates-Seen :
      (c : Call F) (s : Tracker F) {aim : Aim F} {u : Tracker F}
      → call_gates n cfg mode c s ≡ pass aim u
      → (d : Fields F) × (f : F) × (as_dict c.detection ≡ some d)
        × (number n (get "device_timestamp_ms" d) ≡ some f)
        × Seen f u
  unfolding call_gates gates
  gates-Seen c s h =
      let ((a, b), s1, e1, h1) = pass_of_bind (times n c.now c.received _) _ h in
      let (d, s2, e2, h2) = pass_of_bind (detection_dict n c.detection s1) _ h1 in
      let (f, s3, e3, h3) = pass_of_bind (device_stamp n d s2) _ h2 in
      let i3 = stamp_pass n cfg mode d s2 e3 in
      let finite = number_finite n _ i3.0 in
      let seen : Seen f s3 = (f, ground arith, finite, laws.le_refl f finite) in
      (
        d,
        f,
        (dict_pass n cfg mode c.detection s1 e2).0,
        i3.0,
        After-pass (Seen f) _
            (rest-Keeps n (Seen f) (Seen-stable f) cfg mode a b d c.pose c.pose_at s3 seen) h3,
      )

  -- A later call on a frame whose stamp was seen is refused.
  Seen-refused :
      (f : F) (c : Call F) (s : Tracker F) {d : Fields F}
      → as_dict c.detection ≡ some d
      → number n (get "device_timestamp_ms" d) ≡ some f
      → Seen f s
      → (call n cfg mode c s).1.target_m ≡ none
  Seen-refused f c s ed ef (last, e, finite, h) =
      elim (Option-cases (call n cfg mode c s).1.target_m) [
        | inl refused ↦ refused
        | inr (t, given) ↦
            let fresh = target-IsFresh n cfg mode c s given in
            ground (arith, fresh.detection_read, fresh.stamp_read, fresh.stamp_new)
      ]

  -- Given the order laws of floats: once a call returned a target for a detection, no later call of
  -- the session with that same detection returns one, whatever came between.
  pub no_replay :
      (c : Call F) (s : Tracker F) {t : Vec3 F}
      → (call n cfg mode c s).1.target_m ≡ some t
      → (later : List (Call F)) (why : List Reason) (again : Call F) → again.detection ≡ c.detection
      → (call n cfg mode again (run n cfg mode later (call n cfg mode c s).0 why).0).1.target_m
        ≡ none
  no_replay c s h later why again same =
      let (aim, u, e) = call_pass n cfg mode c s h in
      let (d, f, ed, ef, seen) = gates-Seen c s e in
      Seen-refused f again _ (rw same ed) ef
        (run-Seen f later _ why (rw call-eq-conclude (rw e (conclude-Seen f (pass aim u) seen))))
