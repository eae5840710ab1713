-- ===== src/FitJob.antt =====
-- app/fusion/service.py, `run_fit_job`: the gate, the fit and the new active model.
pub mod Models
pub mod Serves
pub mod Fuses
pub mod Active
mod Examples
use pothole_detection_server.Prelude.{
  ℕ, ◌+◌, Bool, true, false, not, ◌&&◌, Option, none, some, List, if◌then◌else◌, ltb, Text, length,
  map,
}
use pothole_detection_server.Float.{Float}
use pothole_detection_server.Json.{Json}
use pothole_detection_server.Schema.{Observation}
use pothole_detection_server.Fusion.{filter, is_null}
use pothole_detection_server.Sensor.{SeverityCalibration, SensorModel}
use pothole_detection_server.Sensor.Fit.{
  Reading, Toolkit, Fit, fit_error, fit_raises, fitted, fit_sensor_model,
}
use pothole_detection_server.Sensor.Store.{ModelRow}
use pothole_detection_server.Sensor.Store.Table.{save_model, load_active_model}

-- The settings of config.py that the job reads.
pub record FitSettings (F : Type 0) : Type 0 where
  pub sensor_fit_min_observations : ℕ
  pub sensor_fit_k_default : ℕ
  pub severity_speed_ref : F
  pub severity_scale : F

-- The result of the job: None, an exception, or the version of the new model.
pub data FitEnd : Type 0 where
  no_fit : FitEnd
  raised : FitEnd
  new_version : Text → FitEnd

module _ {F : Type 0} where
  -- WHERE magnitude IS NOT NULL AND accel_std IS NOT NULL
  pub fittable : Observation F → Bool
  fittable o = not (is_null o.magnitude) && not (is_null o.accel_std)

  -- `_COUNT_FITTABLE_SQL`
  pub count_fittable : List (Observation F) → ℕ
  unfolding fittable
  count_fittable rows = length (filter fittable rows)

  -- `_SELECT_FITTABLE_SQL`
  pub select_fittable : List (Observation F) → List (Reading F)
  unfolding fittable
  select_fittable rows =
      map
        (λ o. record {
          magnitude = o.magnitude;
          accel_std = o.accel_std;
          gbar_in_max = o.gbar_in_max;
          speed_mps = o.speed_mps;
        })
        (filter fittable rows)

  module _ {G I : Type 0} where
    -- `active is not None and (total - active.n_observations) < n_min`; the subtraction, which may
    -- be negative in Python, stands on the other side.
    pub too_few_new : ℕ → ℕ → Option (SensorModel F G I) → Bool
    too_few_new n_min total none = false
    too_few_new n_min total (some active) = ltb total (n_min + active.n_observations)

module _ {F G I : Type 0} ⦃d : Float F⦄ (transport : Json F → Option (Json F))
    (unpickle : Text → Option (G × I)) (kit : Toolkit F G I) (cfg : FitSettings F)
    (hex : Text) where
  -- The fit and the save, on the rows of the second query.
  pub fit_and_save : List (Reading F) → List (ModelRow F) → FitEnd × List (ModelRow F)
  fit_and_save readings rows =
      let calib : SeverityCalibration F = record {
        speed_ref = cfg.severity_speed_ref;
        scale = cfg.severity_scale;
      } in
      elim (fit_sensor_model kit hex cfg.sensor_fit_k_default calib readings) [
        | fit_error ↦ (no_fit, rows)
        | fit_raises ↦ (raised, rows)
        | fitted model blob ↦
            let (saved, rows') = save_model transport model blob rows in
            (if saved then new_version model.model_version else raised, rows')
      ]

  -- `run_fit_job`. `counted` is asset_observation at the count and `fetched` at the second query,
  -- between which events may arrive; `rows` is sensor_model, which only this job writes.
  pub run_fit_job :
      List (Observation F) → List (Observation F) → List (ModelRow F) → FitEnd × List (ModelRow F)
  unfolding fit_and_save count_fittable select_fittable too_few_new
  run_fit_job counted fetched rows =
      let total = count_fittable counted in
      if ltb total cfg.sensor_fit_min_observations
      then (no_fit, rows)
      else elim (load_active_model unpickle rows) [
        | none ↦ (raised, rows)
        | some active ↦
            if too_few_new cfg.sensor_fit_min_observations total active
            then (no_fit, rows)
            else fit_and_save (select_fittable fetched) rows
      ]
