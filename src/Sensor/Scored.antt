-- ===== src/Sensor/Scored.antt =====
-- A model that `fit_sensor_model` gives scores the observations that its forest takes.
use pothole_detection_server.Prelude.{ℕ, ◌≡◌, Bool, Option, some, List, Text, length, subst, sym}
use pothole_detection_server.Float.{Float, zero_f, ◌≺◌}
use pothole_detection_server.Float.Laws.{IsFloat}
use pothole_detection_server.Sensor.{
  SeverityCalibration, SensorModel, ScoreResult, score_observation,
}
use pothole_detection_server.Sensor.Score.{Covers}
use pothole_detection_server.Sensor.Verdict.{Answers, Fits, HasDensities, score_observation_total}
use pothole_detection_server.Sensor.Fit.{Reading, Toolkit, fitted, fit_sensor_model}
use pothole_detection_server.Sensor.Fit.Models.{IsOrder, fit_sensor_model-IsComplete}

pub score_observation-fit_sensor_model :
    {F G I : Type 0} ⦃d : Float F⦄ (laws : IsFloat F)
    (pdf : List F → List F → List (List F) → Option F) (predict : I → List F → Option Bool)
    (takes : F → Bool) (kit : Toolkit F G I) (hex : Text) (k : ℕ) (calib : SeverityCalibration F)
    (rows : List (Reading F)) (model : SensorModel F G I) (blob : Text)
    (magnitude accel_std gbar_in_max speed_mps : Option F)
    → ((xs : List F) → IsOrder (length xs) (kit.argsort xs))
    → Answers takes predict
    → Fits takes magnitude accel_std gbar_in_max speed_mps
    → fit_sensor_model kit hex k calib rows ≡ fitted model blob
    → HasDensities pdf model.components
    → zero_f ≺ model.severity_calib.speed_ref
    → (r : ScoreResult F) × (score_observation pdf predict model magnitude accel_std gbar_in_max
          speed_mps
        ≡ some r)
score_observation-fit_sensor_model laws pdf predict takes kit hex k calib rows model blob m s g v
      sorts answers fits e h ref =
    let (_, (ek, en, el, covers)) =
      fit_sensor_model-IsComplete kit sorts hex k calib rows model blob e in
    let (z, ps, r, _, _, scored, _, _) =
      score_observation_total laws pdf predict takes model m s g v h
        (subst (λ n. Covers n model.class_map) (sym el) covers) answers fits ref in
    (r, scored)
