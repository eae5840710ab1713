-- ===== src/Sensor/Examples.antt =====
-- A fit of three components, and the scores of its model.
use pothole_detection_server.Prelude.{◌≡◌, refl, false, none, some, [], ◌∷◌, codes, All, dec_text}
use pothole_detection_server.Float.{zero_f, ◌≼◌}
use pothole_detection_server.Float.Fixed.{Fixed, plus, minus, unit, fixed_float, Fixed-IsFloat}
use pothole_detection_server.Features.{classifier_features, outlier_features, severity}
use pothole_detection_server.Sensor.{
  ScoreResult, class_of, class_pothole, standardized, class_posteriors, score_observation,
  get_posterior, transform, add_posterior,
}
use pothole_detection_server.Sensor.Verdict.{score_observation_best}
use pothole_detection_server.Sensor.Fit.{
  fit_sensor_model, energy_order, collect, components_of, assign_classes, set_class, class_of_rank,
}
use pothole_detection_server.Sensor.Scored.{score_observation-fit_sensor_model}
use pothole_detection_server.Sensor.Samples.{
  kit, sorts, calib, reading, model, pdf, predict, densities_exist, posteriors, score,
}

score_observation_best_example : All (λ e. e.1 ≼ get_posterior class_pothole posteriors) posteriors
unfolding score_observation class_posteriors standardized classifier_features outlier_features
    severity add_posterior dec_text class_of
score_observation_best_example =
    score_observation_best Fixed-IsFloat pdf predict model (some (plus unit)) none none none
      (minus 999_999 ∷ zero_f ∷ []) posteriors score refl refl (refl, (refl, (refl, tt))) refl

score_observation-fit_sensor_model_example :
    (r : ScoreResult Fixed) × (score_observation pdf predict model none none none none ≡ some r)
unfolding fit_sensor_model collect classifier_features outlier_features transform components_of
    assign_classes set_class class_of_rank energy_order
score_observation-fit_sensor_model_example =
    score_observation-fit_sensor_model Fixed-IsFloat pdf predict fixed_float.is_finite kit
      (codes "a1") 3 calib (reading ∷ reading ∷ reading ∷ []) model (codes "blob") none none none
      none sorts (λ forest xo fine. (false, refl)) (refl, (refl, (refl, (refl, (refl, tt))))) refl
      densities_exist refl
