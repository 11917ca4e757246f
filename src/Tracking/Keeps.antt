-- ===== src/Tracking/Keeps.antt =====
-- Predicates of the tracker that every part of `evaluate` keeps, whichever way the part ends.
use bxi_car_v.Base.{some, arith}
use bxi_car_v.Base.Gate.{◌>>=◌, Keeps, Keeps-bind}
use bxi_car_v.Base.Value.{Value, Fields}
use bxi_car_v.Base.Numeric.{Numeric}
use bxi_car_v.Tracking.Config.{Config}
use bxi_car_v.Tracking.Tracker.{Mode, Tracker, Details, cleared}
use bxi_car_v.Tracking.Evaluate.{
  times, detection_dict, device_stamp, frame_time, position, pose_time, geometry, gates,
}

-- `P` reads none of the times and details, and is not lost when an acquisition is cleared.
pub record IsStable {F : Type 0} (P : Tracker F → Type 0) : Type 0 where
  pub at_now : (s : Tracker F) (t : F) → P s → P (record s { last_now = some t })
  pub at_frame : (s : Tracker F) (t : F) → P s → P (record s { last_frame_received_at = some t })
  pub at_details : (s : Tracker F) (d : Details F) → P s → P (record s { details = d })
  pub at_cleared : (s : Tracker F) → P s → P (cleared s)

-- For a predicate that does not read the stamp.
pub device_stamp-Keeps :
    (n : Numeric) (P : Tracker n.F → Type 0)
    → ((s : Tracker n.F) (t : n.F) → P s → P (record s { last_device_timestamp = some t }))
    → (d : Fields n.F) → Keeps P (device_stamp n d)
unfolding device_stamp
device_stamp-Keeps n P at_stamp d s h = grind (arith, at_stamp)

module _ (n : Numeric) (P : Tracker n.F → Type 0) (st : IsStable P) where
  open n use {F}

  times-Keeps : (a b : Value F) → Keeps P (times n a b)
  unfolding times
  times-Keeps a b s h = grind (arith, st.at_now)

  detection_dict-Keeps : (v : Value F) → Keeps P (detection_dict n v)
  unfolding detection_dict
  detection_dict-Keeps v s h = ground arith

  frame_time-Keeps : (cfg : Config F) (a b : F) → Keeps P (frame_time n cfg a b)
  unfolding frame_time
  frame_time-Keeps cfg a b s h =
      ground (arith, st.at_frame s b h, st.at_frame (cleared s) b (st.at_cleared s h))

  position-Keeps : (cfg : Config F) (mode : Mode) (d : Fields F) → Keeps P (position n cfg mode d)
  unfolding position
  position-Keeps cfg mode d s h = ground arith

  pose_time-Keeps : (cfg : Config F) (a : F) (b c : Value F) → Keeps P (pose_time n cfg a b c)
  unfolding pose_time
  pose_time-Keeps cfg a b c s h = ground arith

  geometry-Keeps :
      (cfg : Config F) (mode : Mode) (d p : Fields F) (pose : Value F)
      → Keeps P (geometry n cfg mode d p pose)
  unfolding geometry
  geometry-Keeps cfg mode d p pose s h = grind (arith, st.at_details)

  -- What `gates` does after the device stamp.
  pub rest-Keeps :
      (cfg : Config F) (mode : Mode) (a b : F) (d : Fields F) (pose pose_at : Value F)
      → Keeps P (
          frame_time n cfg a b >>= λ timed. position n cfg mode d >>= λ p.
          pose_time n cfg a pose pose_at >>= λ posed. geometry n cfg mode d p pose)
  rest-Keeps cfg mode a b d pose pose_at =
      Keeps-bind P (frame_time n cfg a b) _ (frame_time-Keeps cfg a b) λ timed.
        Keeps-bind P (position n cfg mode d) _ (position-Keeps cfg mode d) λ p.
          Keeps-bind P (pose_time n cfg a pose pose_at) _ (pose_time-Keeps cfg a pose pose_at)
            λ posed. geometry-Keeps cfg mode d p pose

  pub gates-Keeps :
      ((d : Fields F) → Keeps P (device_stamp n d))
      → (cfg : Config F) (mode : Mode) (detection now received pose pose_at : Value F)
      → Keeps P (gates n cfg mode detection now received pose pose_at)
  unfolding gates
  gates-Keeps stamped cfg mode detection now received pose pose_at =
      Keeps-bind P (times n now received) _ (times-Keeps now received) λ (a, b).
        Keeps-bind P (detection_dict n detection) _ (detection_dict-Keeps detection) λ d.
          Keeps-bind P (device_stamp n d) _ (stamped d)
            λ stamp. rest-Keeps cfg mode a b d pose pose_at
