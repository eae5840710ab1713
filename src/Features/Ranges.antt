-- ===== src/Features/Ranges.antt =====
-- The features never divide by zero, and the severity lies in [0, 1].
use pothole_detection_server.Prelude.{
  ◌≡◌, refl, false, Option, none, some, [], ◌∷◌, arith, inl, inr, Bool-cases,
}
use pothole_detection_server.Float.{Float, zero_f, one_f, max_f, ◌≼◌, ◌≺◌}
use pothole_detection_server.Float.Laws.{IsFloat}
use pothole_detection_server.Features.{
  or_zero, compute_ratio, classifier_features, outlier_features, clamp01, positive_speed, severity,
}

module _ {F : Type 0} ⦃d : Float F⦄ (laws : IsFloat F) where
  open laws use {
    lt-le, le_trans, refl_of_le, not_lt-le, lt-not_le, eq-le, zero-le-one, zero-lt-one, lt_le_trans,
  }

  -- Between 0 and 1.
  abbrev pub InUnit : F → Type 0
  InUnit x = (zero_f ≼ x) × (x ≼ one_f)

  zero_refl : ◌≼◌ {F = F} zero_f zero_f
  zero_refl = (refl_of_le _ _ zero-le-one).0

  one_refl : ◌≼◌ {F = F} one_f one_f
  one_refl = (refl_of_le _ _ zero-le-one).1

  -- `clamp01` lies between 0 and 1 at every float, infinities and NaN included.
  pub clamp01_bounds : (x : F) → InUnit (clamp01 x)
  unfolding clamp01
  clamp01_bounds x =
      ground
        (arith, lt-le x one_f, lt-le zero_f x, lt-le zero_f one_f, zero-le-one, zero_refl, one_refl)

  -- `clamp01` changes no number between 0 and 1.
  pub clamp01_id : (x : F) → InUnit x → (x ≼ clamp01 x) × (clamp01 x ≼ x)
  unfolding clamp01
  clamp01_id x (l, u) = ground (
    arith,
    refl_of_le zero_f x l,
    not_lt-le x one_f,
    not_lt-le zero_f x,
    not_lt-le zero_f one_f,
    zero_refl,
    one_refl,
    lt-not_le one_f x,
  )

  pub pos-ne_zero : (x : F) → zero_f ≺ x → d.eq x zero_f ≡ false
  pos-ne_zero x h = ground (arith, eq-le x zero_f, lt-not_le zero_f x h)

  -- The ratio is computed for every pair of readings, with no division by zero.
  pub compute_ratio_total :
      (magnitude accel_std : Option F) → (r : F) × (compute_ratio magnitude accel_std ≡ some r)
  unfolding compute_ratio
  compute_ratio_total none accel_std = (_, refl)
  compute_ratio_total (some m) none = (_, refl)
  compute_ratio_total (some m) (some s) = elim (Bool-cases (d.le s zero_f)) [
    | inl low ↦ (zero_f, rw low)
    | inr high ↦ (d.quotient m s, ground (arith, eq-le s zero_f))
  ]

  -- The denominator of the severity is positive.
  denominator_pos :
      (speed_mps : Option F) (speed_ref : F)
      → zero_f ≺ speed_ref
      → zero_f ≺ max_f (positive_speed speed_mps) speed_ref
  unfolding positive_speed
  denominator_pos none ref h = ground arith
  denominator_pos (some s) ref h = ground arith

  -- With a positive reference speed, the severity is computed for every reading, a missing or NaN
  -- magnitude or speed included, with no division by zero, and lies between 0 and 1.
  pub severity_bounds :
      (magnitude speed_mps : Option F) (speed_ref scale : F)
      → zero_f ≺ speed_ref
      → (v : F) × (severity magnitude speed_mps speed_ref scale ≡ some v) × InUnit v
  unfolding severity
  severity_bounds none s ref scale h = (zero_f, refl, (zero_refl, zero-le-one))
  severity_bounds (some m) s ref scale h = elim (Bool-cases (d.le m zero_f)) [
    | inl low ↦ (zero_f, rw low, (zero_refl, zero-le-one))
    | inr high ↦
        let denominator = max_f (positive_speed s) ref in
        let raw = d.quotient (d.mul scale m) denominator in
        let bounds = clamp01_bounds raw in
        (
          clamp01 raw,
          rw (severity, high, pos-ne_zero denominator (denominator_pos s ref h)),
          bounds,
        )
  ]

  -- Both feature vectors are computed for every row, the first with 2 entries and the second with
  -- 5, and begin with the same ratio.
  pub features_total :
      (magnitude accel_std gbar_in_max speed_mps : Option F)
      → (ratio : F) × (classifier_features magnitude accel_std gbar_in_max
          ≡ some (ratio ∷ or_zero gbar_in_max ∷ []))
        × (outlier_features magnitude accel_std gbar_in_max speed_mps
            ≡ some (
                ratio
                ∷ or_zero gbar_in_max
                ∷ or_zero magnitude
                ∷ or_zero accel_std
                ∷ or_zero speed_mps
                ∷ []))
  unfolding classifier_features outlier_features
  features_total m s g v =
      let (ratio, e) = compute_ratio_total m s in
      (ratio, rw (classifier_features, e), rw (outlier_features, e))
