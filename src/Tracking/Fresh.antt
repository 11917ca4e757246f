-- ===== src/Tracking/Fresh.antt =====
-- What a target of `evaluate` says about the frame and the pose that it came from, and that no
-- frame is used twice.
use bxi_car_v.Base.{true, false, some, ◌≡◌, refl, arith}
use bxi_car_v.Base.Gate.{Gate, reject, pass, pass_of_bind}
use bxi_car_v.Base.Value.{Value, Fields, as_dict, is_true, get}
use bxi_car_v.Base.Numeric.{Numeric, Vec3, number}
use bxi_car_v.Tracking.Config.{Config, tool}
use bxi_car_v.Tracking.Tracker.{Mode, Tracker, Reason, invalidate}
use bxi_car_v.Tracking.Evaluate.{
  Aim, times, detection_dict, device_stamp, frame_time, position, pose_time, gates, conclude,
  not_after, before,
}
use bxi_car_v.Tracking.Session.{Call, call, call_gates, call-eq-conclude}

module _ (n : Numeric) (cfg : Config n.F) (mode : Mode) where
  open n use {F, lt, le, lit, sub}

  -- The frame of a call is new and recent, by the numbers that the call was given.
  pub record IsFresh (c : Call F) (s : Tracker F) : Type 0 where
    pub now : F
    pub received : F
    pub stamp : F
    pub fields : Fields F
    pub now_read : number n c.now ≡ some now
    pub received_read : number n c.received ≡ some received
    pub detection_read : as_dict c.detection ≡ some fields
    pub stamp_read : number n (get "device_timestamp_ms" fields) ≡ some stamp
    pub detected : is_true (get "valid" fields) ≡ true
    pub now_valid : lt now (lit 0 0) ≡ false
    pub received_valid : lt received (lit 0 0) ≡ false
    pub stamp_valid : lt stamp (lit 0 0) ≡ false
    pub now_not_back : before n now s.last_now ≡ false
    pub not_future : lt now received ≡ false
    pub not_stale : lt cfg.max_frame_age_s (sub now received) ≡ false
    pub stamp_new : not_after n stamp s.last_device_timestamp ≡ false
    pub frame_new : not_after n received s.last_frame_received_at ≡ false

  times_pass :
      (a b : Value F) (s : Tracker F) {now received : F} {t : Tracker F}
      → times n a b s ≡ pass (now, received) t
      → (number n a ≡ some now)
        × (number n b ≡ some received)
        × (before n now s.last_now ≡ false)
        × (t ≡ record s { last_now = some now })
        × (lt now (lit 0 0) ≡ false)
        × (lt received (lit 0 0) ≡ false)
  unfolding times
  times_pass a b s h = ground arith

  pub dict_pass :
      (v : Value F) (s : Tracker F) {d : Fields F} {t : Tracker F}
      → detection_dict n v s ≡ pass d t
      → (as_dict v ≡ some d) × (t ≡ s)
  unfolding detection_dict
  dict_pass v s h = ground arith

  pub stamp_pass :
      (d : Fields F) (s : Tracker F) {f : F} {t : Tracker F}
      → device_stamp n d s ≡ pass f t
      → (number n (get "device_timestamp_ms" d) ≡ some f)
        × (not_after n f s.last_device_timestamp ≡ false)
        × (t ≡ record s { last_device_timestamp = some f })
        × (lt f (lit 0 0) ≡ false)
  unfolding device_stamp
  stamp_pass d s h = ground arith

  frame_pass :
      (now received : F) (s : Tracker F) {x : Unit {0}} {t : Tracker F}
      → frame_time n cfg now received s ≡ pass x t
      → (lt now received ≡ false)
        × (lt cfg.max_frame_age_s (sub now received) ≡ false)
        × (not_after n received s.last_frame_received_at ≡ false)
  unfolding frame_time
  frame_pass now received s h = ground arith

  position_pass :
      (d : Fields F) (s : Tracker F) {p : Fields F} {t : Tracker F}
      → position n cfg mode d s ≡ pass p t
      → is_true (get "valid" d) ≡ true
  unfolding position
  position_pass d s h = ground arith

  pose_pass :
      (now : F) (pose at : Value F) (s : Tracker F) {x : Unit {0}} {t : Tracker F}
      → cfg.camera_mount ≡ tool
      → pose_time n cfg now pose at s ≡ pass x t
      → (f : F) × (number n at ≡ some f)
        × (lt now f ≡ false)
        × (lt cfg.max_pose_age_s (sub now f) ≡ false)
  unfolding pose_time
  pose_pass now pose at s m h = ground arith

  -- The parts of `gates`, inverted in order.
  gates-IsFresh :
      (c : Call F) (s : Tracker F) {aim : Aim F} {u : Tracker F}
      → call_gates n cfg mode c s ≡ pass aim u
      → IsFresh c s
  unfolding call_gates gates
  gates-IsFresh c s h =
      let ((a, b), s1, e1, h1) = pass_of_bind (times n c.now c.received _) _ h in
      let (d, s2, e2, h2) = pass_of_bind (detection_dict n c.detection s1) _ h1 in
      let (f, s3, e3, h3) = pass_of_bind (device_stamp n d s2) _ h2 in
      let (x, s4, e4, h4) = pass_of_bind (frame_time n cfg a b s3) _ h3 in
      let (p, s5, e5, h5) = pass_of_bind (position n cfg mode d s4) _ h4 in
      let i1 = times_pass c.now c.received _ e1 in
      let i2 = dict_pass c.detection s1 e2 in
      let i3 = stamp_pass d s2 e3 in
      let i4 = frame_pass a b s3 e4 in
      record {
        now = a;
        received = b;
        stamp = f;
        fields = d;
        now_read = i1.0;
        received_read = i1.1;
        detection_read = i2.0;
        stamp_read = i3.0;
        detected = position_pass d s4 e5;
        now_valid = i1.4;
        received_valid = i1.5;
        stamp_valid = i3.3;
        now_not_back = i1.2;
        not_future = i4.0;
        not_stale = i4.1;
        stamp_new = ground arith;
        frame_new = ground arith;
      }

  conclude_pass :
      (g : Gate Reason (Tracker F) (Aim F)) {t : Vec3 F}
      → (conclude n cfg g).1.target_m ≡ some t
      → (aim : Aim F) × (u : Tracker F) × (g ≡ pass aim u)
  unfolding conclude invalidate
  conclude_pass (reject why s) h = absurd (cc h)
  conclude_pass (pass aim s) h = (aim, s, refl)

  pub call_pass :
      (c : Call F) (s : Tracker F) {t : Vec3 F}
      → (call n cfg mode c s).1.target_m ≡ some t
      → (aim : Aim F) × (u : Tracker F) × (call_gates n cfg mode c s ≡ pass aim u)
  call_pass c s h = conclude_pass (call_gates n cfg mode c s) (rw call-eq-conclude at h)

  -- A call that returns a target read its two times and the device stamp of a detection that is marked
  -- as valid, none of the three numbers being negative. Its time is not before the last call's, its frame
  -- has not a future or stale reception time, and its device stamp and reception time are after the last
  -- ones.
  pub target-IsFresh :
      (c : Call F) (s : Tracker F) {t : Vec3 F}
      → (call n cfg mode c s).1.target_m ≡ some t
      → IsFresh c s
  target-IsFresh c s h = let (aim, u, e) = call_pass c s h in gates-IsFresh c s e

  gates_pose :
      (c : Call F) (s : Tracker F) {aim : Aim F} {u : Tracker F}
      → cfg.camera_mount ≡ tool
      → call_gates n cfg mode c s ≡ pass aim u
      → (now : F) × (at : F) × (number n c.now ≡ some now)
        × (number n c.pose_at ≡ some at)
        × (lt now at ≡ false)
        × (lt cfg.max_pose_age_s (sub now at) ≡ false)
  unfolding call_gates gates
  gates_pose c s m h =
      let ((a, b), s1, e1, h1) = pass_of_bind (times n c.now c.received _) _ h in
      let (d, s2, e2, h2) = pass_of_bind (detection_dict n c.detection s1) _ h1 in
      let (f, s3, e3, h3) = pass_of_bind (device_stamp n d s2) _ h2 in
      let (x, s4, e4, h4) = pass_of_bind (frame_time n cfg a b s3) _ h3 in
      let (p, s5, e5, h5) = pass_of_bind (position n cfg mode d s4) _ h4 in
      let (y, s6, e6, h6) = pass_of_bind (pose_time n cfg a c.pose c.pose_at s5) _ h5 in
      let i1 = times_pass c.now c.received _ e1 in
      let (at, q1, q2, q3) = pose_pass a c.pose c.pose_at s5 m e6 in (a, at, i1.0, q1, q2, q3)

  -- With the camera on the arm, a call that returns a target was given a pose that was received not
  -- after the time of the call and at most `max_pose_age_s` before it.
  pub target_pose :
      (c : Call F) (s : Tracker F) {t : Vec3 F}
      → cfg.camera_mount ≡ tool
      → (call n cfg mode c s).1.target_m ≡ some t
      → (now : F) × (at : F) × (number n c.now ≡ some now)
        × (number n c.pose_at ≡ some at)
        × (lt now at ≡ false)
        × (lt cfg.max_pose_age_s (sub now at) ≡ false)
  target_pose c s m h = let (aim, u, e) = call_pass c s h in gates_pose c s m e
