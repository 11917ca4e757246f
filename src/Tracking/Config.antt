-- ===== src/Tracking/Config.antt =====
-- `validate_config` of arm_tracking.py: what a calibration file must hold before any motion.
use bxi_car_v.Base.{
  ℕ, String, Bool, true, false, not, ◌&&◌, ◌||◌, Option, none, some, List, [], ◌∷◌, ltb,
  if◌then◌else◌,
}
use bxi_car_v.Base.Maybe.{◌>>=◌, ◌>>◌, refuse_if}
use bxi_car_v.Base.Int.{pos}
use bxi_car_v.Base.Value.{
  Value, int, Fields, as_dict, is_true, is_str, get, get_or, has, all_keys, float,
}
use bxi_car_v.Base.Numeric.{Numeric, Vec3, Mat3, number}
use text.Mathlib.Text.{◌==◌ as str_eq}

pub data Mount : Type 0 where
  fixed tool : Mount

pub record Config (F : Type 0) : Type 0 where
  pub camera_mount : Mount
  pub rotation : Mat3 F
  pub translation_m : Vec3 F
  pub offset_below_m : F
  pub min_valid_frames : ℕ
  pub max_frame_age_s : F
  pub max_pose_age_s : F
  pub max_target_jump_m : F
  pub approach_standoff_m : F

abbrev pub config_keys : List String
config_keys =
    "calibrated" ∷ "camera_mount" ∷ "rotation" ∷ "translation_m" ∷ "offset_below_m"
    ∷ "min_valid_frames" ∷ "max_frame_age_s" ∷ "max_pose_age_s" ∷ "max_target_jump_m" ∷ []

abbrev pub optional_config_keys : List String
optional_config_keys = "approach_standoff_m" ∷ []

unfoldable pub has_all : {F : Type 0} → List String → Fields F → Bool
has_all [] d = true
has_all (k ∷ ks) d = has k d && has_all ks d

unfoldable pub listed : List String → String → Bool
listed [] k = false
listed (j ∷ js) k = str_eq j k || listed js k

camera_mount_of : {F : Type 0} → Value F → Option Mount
camera_mount_of v =
    if is_str "fixed" v then some fixed else if is_str "tool" v then some tool else none

-- `isinstance(count, bool) or not isinstance(count, int) or count < 3` refuses.
frame_count : {F : Type 0} → Value F → Option ℕ
frame_count (int (pos k)) = if ltb k 3 then none else some k
frame_count _ = none

module _ (n : Numeric) where
  open n use {F, lt, le, is_finite, lit, sub, abs, as_vector, as_matrix, det, gram_close}

  finite_vec3 : F → F → F → Option (Vec3 F)
  finite_vec3 a b c =
      if is_finite a && is_finite b && is_finite c
      then some (record { x = a; y = b; z = c })
      else none

  to_vec3 : List F → Option (Vec3 F)
  unfolding finite_vec3
  to_vec3 (a ∷ b ∷ c ∷ []) = finite_vec3 a b c
  to_vec3 _ = none

  -- `_array(value, (3,), name)`; `none` is its ValueError.
  unfoldable pub array3 : Value F → Option (Vec3 F)
  unfolding to_vec3
  array3 v = as_vector v >>= to_vec3

  to_mat3 : List (List F) → Option (Mat3 F)
  unfolding to_vec3
  to_mat3 (a ∷ b ∷ c ∷ []) = do
    x ← to_vec3 a
    y ← to_vec3 b
    z ← to_vec3 c
    some (record { r0 = x; r1 = y; r2 = z })
  to_mat3 _ = none

  -- `_array(value, (3, 3), name)`.
  unfoldable pub array33 : Value F → Option (Mat3 F)
  unfolding to_mat3
  array33 v = as_matrix v >>= to_mat3

  -- a number that must be positive, under its own key
  unfoldable pub positive : String → Fields F → Option F
  positive key d = do f ← number n (get key d); refuse_if (le f (lit 0 0)); some f

  unfoldable pub validate_fields : Fields F → Option (Config F)
  unfolding camera_mount_of frame_count
  validate_fields d = do
    refuse_if (not (is_true (get "calibrated" d)))
    refuse_if (
        not (has_all config_keys d)
        || not (all_keys (λ k. listed config_keys k || listed optional_config_keys k) d))
    mount ← camera_mount_of (get "camera_mount" d)
    rotation ← array33 (get "rotation" d)
    refuse_if (not (gram_close rotation) || not (le (abs (sub (det rotation) (lit 1 0))) (lit 1 6)))
    translation ← array3 (get "translation_m" d)
    standoff ← number n (get_or "approach_standoff_m" (float (lit 0 0)) d)
    refuse_if (lt standoff (lit 0 0))
    offset ← positive "offset_below_m" d
    frame_age ← positive "max_frame_age_s" d
    pose_age ← positive "max_pose_age_s" d
    jump ← positive "max_target_jump_m" d
    refuse_if (lt (lit 25 2) frame_age)
    refuse_if (lt (lit 25 2) pose_age)
    count ← frame_count (get "min_valid_frames" d)
    some (record {
      camera_mount = mount;
      rotation = rotation;
      translation_m = translation;
      offset_below_m = offset;
      min_valid_frames = count;
      max_frame_age_s = frame_age;
      max_pose_age_s = pose_age;
      max_target_jump_m = jump;
      approach_standoff_m = standoff;
    })

  -- `none` is the ValueError.
  unfoldable pub validate_config : Value F → Option (Config F)
  unfolding validate_fields
  validate_config v = as_dict v >>= validate_fields
