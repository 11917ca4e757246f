-- ===== src/Tracking/Geometry.antt =====
-- The geometry of arm_tracking.py: `_transform`, and the bounded feedback of `_pixel_target` and
-- `_depth_correction`. A raise is `none`; the `_pixel_details` that the source writes to the object
-- on the way are returned beside the target.
use bxi_car_v.Base.{Bool, not, ◌&&◌, ◌||◌, Option, none, some, List, [], ◌∷◌, if◌then◌else◌}
use bxi_car_v.Base.Maybe.{◌>>=◌, ◌>>◌, refuse_if}
use bxi_car_v.Base.Value.{Value, null, Fields, get}
use bxi_car_v.Base.Numeric.{Numeric, Vec3, Mat3, max_of, min_of}
use bxi_car_v.Tracking.Config.{Mount, fixed, tool, Config, array3}

-- A NumPy array of shape (2,): image columns and rows.
pub record Vec2 (F : Type 0) : Type 0 where
  pub u : F
  pub v : F

-- The entries that `_pixel_target` puts into `_pixel_details`.
pub record PixelDetails (F : Type 0) : Type 0 where
  pub pixel_reference : Vec2 F
  pub pixel_error : Vec2 F
  pub y_correction_m : F
  pub z_correction_m : F

-- Those that `_depth_correction` adds.
pub record DepthDetails (F : Type 0) : Type 0 where
  pub depth_m : F
  pub depth_reference_m : Option F
  pub depth_error_m : F
  pub x_correction_m : F

-- What `_pixel_target` returns: no target is `None` in the first place.
pub record Framing (F : Type 0) : Type 0 where
  pub target : Option (Vec3 F × PixelDetails F)
  pub midpoint : Vec2 F
  pub size : Vec2 F

module _ (n : Numeric) where
  open n use {
    F, lt, le, eq, is_finite, lit, add, sub, mul, div, neg, abs, sin, cos, floor, copysign, pi,
    as_vector, matvec,
  }

  abbrev pub deadband_px : F
  deadband_px = lit 8 0

  abbrev pub gain_m_per_px : F
  gain_m_per_px = lit 1 4

  abbrev pub min_correction_m : F
  min_correction_m = lit 3 3

  abbrev pub max_correction_m : F
  max_correction_m = lit 10 3

  -- `math.cos(math.radians(30.))`
  abbrev pub min_up_projection : F
  min_up_projection = cos (mul (lit 30 0) (div pi (lit 180 0)))

  abbrev pub depth_deadband_m : F
  depth_deadband_m = lit 5 3

  to_vec2 : List F → Option (Vec2 F)
  to_vec2 (a ∷ b ∷ []) = if is_finite a && is_finite b then some (record { u = a; v = b }) else none
  to_vec2 _ = none

  -- `_array(value, (2,), name)`.
  unfoldable pub array2 : Value F → Option (Vec2 F)
  unfolding to_vec2
  array2 v = as_vector v >>= to_vec2

  unfoldable pub plus : Vec3 F → Vec3 F → Vec3 F
  plus a b = record { x = add a.x b.x; y = add a.y b.y; z = add a.z b.z }

  -- The pitch matrix of `_transform`, whose rows are written out there.
  pitch_matrix : F → Mat3 F
  pitch_matrix pitch =
      let c = cos pitch in
      let s = sin pitch in
      record {
        r0 = record { x = c; y = lit 0 0; z = neg s };
        r1 = record { x = lit 0 0; y = lit 1 0; z = lit 0 0 };
        r2 = record { x = s; y = lit 0 0; z = c };
      }

  -- The step from the camera mount to the shoulder.
  mounted : Mount → Value F → Vec3 F → Option (Vec3 F)
  unfolding pitch_matrix plus
  mounted tool null p = none
  mounted tool pose p = do
    a ← array3 n pose
    some (plus (matvec (pitch_matrix a.z) p) (record { x = a.x; y = lit 0 0; z = a.y }))
  mounted fixed null p = some p
  mounted fixed pose p = array3 n pose >>= λ _. some p

  all_finite : Vec3 F → Bool
  all_finite p = is_finite p.x && is_finite p.y && is_finite p.z

  unfoldable pub transform : Config F → Value F → Value F → Option (Vec3 F)
  unfolding mounted all_finite plus
  transform cfg camera_point arm_pose = do
    point ← array3 n camera_point
    refuse_if (le point.z (lit 0 0))
    p ← mounted cfg.camera_mount arm_pose (plus (matvec cfg.rotation point) cfg.translation_m)
    let target = record p { z = sub p.z cfg.offset_below_m }
    refuse_if (not (all_finite target))
    some target

  -- One entry of the list comprehension over `error`.
  unfoldable pub pixel_correction : F → F
  pixel_correction delta =
      if le (abs delta) deadband_px
      then lit 0 0
      else copysign
          (min_of n max_correction_m (max_of n min_correction_m (mul (abs delta) gain_m_per_px)))
          delta

  -- The tests on the arrays: `np.any` of each comparison.
  bad_size : Vec2 F → Bool
  bad_size s =
      (le s.u (lit 1 0) || le s.v (lit 1 0))
      || (not (eq s.u (floor s.u)) || not (eq s.v (floor s.v)))

  outside : Vec2 F → Vec2 F → Bool
  outside m s = (lt m.u (lit 0 0) || lt m.v (lit 0 0)) || (le s.u m.u || le s.v m.v)

  -- The second half of `_pixel_target`, once the camera is known to be upright.
  pixel_command : Vec3 F → Vec2 F → Vec2 F → Vec3 F × PixelDetails F
  unfolding pixel_correction
  pixel_command pose m s =
      let rx = div (sub s.u (lit 1 0)) (lit 2 0) in
      let ry = div (sub s.v (lit 1 0)) (lit 2 0) in
      let ex = sub rx m.u in
      let ey = sub ry m.v in
      (
        record { x = pose.x; y = pixel_correction ex; z = add pose.y (pixel_correction ey) },
        record {
          pixel_reference = record { u = rx; v = ry };
          pixel_error = record { u = ex; v = ey };
          y_correction_m = pixel_correction ex;
          z_correction_m = pixel_correction ey;
        },
      )

  -- An arm pose is [x, z, pitch]; `-rotation[:, 1]` is the image's up axis.
  up_projection : Config F → Vec3 F → F
  up_projection cfg pose =
      add (mul (sin pose.z) (neg cfg.rotation.r0.y)) (mul (cos pose.z) (neg cfg.rotation.r2.y))

  unfoldable pub pixel_target : Config F → Fields F → Value F → Option (Framing F)
  unfolding bad_size outside pixel_command up_projection
  pixel_target cfg detection arm_pose = do
    m ← array2 (get "midpoint_px" detection)
    s ← array2 (get "image_size" detection)
    refuse_if (bad_size s)
    refuse_if (outside m s)
    pose ← array3 n arm_pose
    some (record {
      target =
          (if lt (up_projection cfg pose) min_up_projection
            then none
            else some (pixel_command pose m s));
      midpoint = m;
      size = s;
    })

  depth_error : Option F → F → F
  depth_error none depth = lit 0 0
  depth_error (some reference) depth = sub depth reference

  forward_projection : Config F → Vec3 F → F
  forward_projection cfg pose =
      sub (mul (cos pose.z) cfg.rotation.r0.z) (mul (sin pose.z) cfg.rotation.r2.z)

  unfoldable pub depth_step : F → F → F
  depth_step error projection =
      if le (abs error) (add depth_deadband_m (lit 1 9))
      then lit 0 0
      else copysign
          (min_of n max_correction_m (max_of n min_correction_m (div (abs error) projection))) error

  -- The result is the entry added to `_pixel_details`, whose last field is what is returned.
  unfoldable pub depth_correction : Config F → Option F → F → Value F → Option (DepthDetails F)
  unfolding depth_error forward_projection depth_step
  depth_correction cfg reference depth arm_pose = do
    pose ← array3 n arm_pose
    let error = depth_error reference depth
    let projection = forward_projection cfg pose
    refuse_if (le projection (lit 0 0))
    some (record {
      depth_m = depth;
      depth_reference_m = reference;
      depth_error_m = error;
      x_correction_m = depth_step error projection;
    })
