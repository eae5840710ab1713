-- ===== src/Features.antt =====
-- app/sensor_model/features.py
pub mod Ranges
mod Examples
use pothole_detection_server.Prelude.{
  Bool, true, false, ◌||◌, Option, none, some, List, [], ◌∷◌, if◌then◌else◌,
}
use pothole_detection_server.Float.{Float, zero_f, one_f, max_f, min_f, divide}

module _ {F : Type 0} ⦃d : Float F⦄ where
  -- `x if x is not None else 0.0`
  abbrev pub or_zero : Option F → F
  or_zero none = zero_f
  or_zero (some x) = x

  -- `none` is a ZeroDivisionError.
  pub compute_ratio : Option F → Option F → Option F
  compute_ratio none accel_std = some zero_f
  compute_ratio (some magnitude) none = some zero_f
  compute_ratio (some magnitude) (some accel_std) =
      if d.le accel_std zero_f then some zero_f else divide magnitude accel_std

  unfoldable pub classifier_features : Option F → Option F → Option F → Option (List F)
  unfolding compute_ratio
  classifier_features magnitude accel_std gbar_in_max = elim (compute_ratio magnitude accel_std) [
    | none ↦ none
    | some ratio ↦ some (ratio ∷ or_zero gbar_in_max ∷ [])
  ]

  unfoldable pub outlier_features : Option F → Option F → Option F → Option F → Option (List F)
  unfolding compute_ratio
  outlier_features magnitude accel_std gbar_in_max speed_mps =
      elim (compute_ratio magnitude accel_std) [
        | none ↦ none
        | some ratio ↦ some (
            ratio
            ∷ or_zero gbar_in_max
            ∷ or_zero magnitude
            ∷ or_zero accel_std
            ∷ or_zero speed_mps
            ∷ [])
      ]

  -- `max(0.0, min(1.0, x))`, as engine.py's `clamp01` and the end of `severity` write it.
  pub clamp01 : F → F
  clamp01 x = max_f zero_f (min_f one_f x)

  -- `speed_mps if (speed_mps is not None and speed_mps > 0.0) else 0.0`
  pub positive_speed : Option F → F
  positive_speed none = zero_f
  positive_speed (some speed_mps) = if d.lt zero_f speed_mps then speed_mps else zero_f

  -- `none` is a ZeroDivisionError.
  unfoldable pub severity : Option F → Option F → F → F → Option F
  unfolding positive_speed clamp01
  severity none speed_mps speed_ref scale = some zero_f
  severity (some magnitude) speed_mps speed_ref scale =
      if d.le magnitude zero_f
      then some zero_f
      else elim (divide (d.mul scale magnitude) (max_f (positive_speed speed_mps) speed_ref)) [
        | none ↦ none
        | some raw ↦ some (clamp01 raw)
      ]
