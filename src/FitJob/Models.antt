-- ===== src/FitJob/Models.antt =====
-- The fit job: when it fits, and the model that it leaves active.
use pothole_detection_server.Prelude.{
  ℕ, ◌+◌, ◌≤◌, ◌≡◌, ◌∙◌, refl, true, false, Option, none, some, List, arith, ltb, Text, ◌⊎◌, inl,
  inr, Bool-cases, Option-cases,
}
use pothole_detection_server.Float.{Float}
use pothole_detection_server.Json.{Json}
use pothole_detection_server.Schema.{Observation}
use pothole_detection_server.Sensor.{SeverityCalibration, SensorModel}
use pothole_detection_server.Sensor.Fit.{
  Reading, Toolkit, Fit, fit_error, fit_raises, fitted, fit_sensor_model,
}
use pothole_detection_server.Sensor.Store.{ModelRow}
use pothole_detection_server.Sensor.Store.Table.{save_model, load_active_model}
use pothole_detection_server.Sensor.Store.Active.{count_active, save_model_active}
use pothole_detection_server.FitJob.{
  FitSettings, no_fit, raised, new_version, count_fittable, select_fittable, too_few_new,
  fit_and_save, run_fit_job,
}

-- `calib`
abbrev pub calibration : {F : Type 0} → FitSettings F → SeverityCalibration F
calibration cfg = record { speed_ref = cfg.severity_speed_ref; scale = cfg.severity_scale }

module _ {F G I : Type 0} (cfg : FitSettings F) where
  -- The gate is open: enough observations, and enough of them new since the active model.
  abbrev pub IsOpen : ℕ → Option (SensorModel F G I) → Type 0
  IsOpen total none = cfg.sensor_fit_min_observations ≤ total
  IsOpen total (some active) =
      (cfg.sensor_fit_min_observations ≤ total)
      × (cfg.sensor_fit_min_observations + active.n_observations ≤ total)

  abbrev pub IsDue : (Text → Option (G × I)) → ℕ → List (ModelRow F) → Type 0
  IsDue unpickle total rows =
      (active : Option (SensorModel F G I)) × (load_active_model unpickle rows ≡ some active)
      × IsOpen total active

  too_few_new-IsOpen :
      (total : ℕ) (active : Option (SensorModel F G I))
      → ltb total cfg.sensor_fit_min_observations ≡ false
      → too_few_new cfg.sensor_fit_min_observations total active ≡ false
      → IsOpen total active
  unfolding too_few_new
  too_few_new-IsOpen total none e f = ground arith
  too_few_new-IsOpen total (some active) e f = (ground arith, ground arith)

module _ {F G I : Type 0} ⦃d : Float F⦄ (transport : Json F → Option (Json F)) (kit : Toolkit F G I)
    (cfg : FitSettings F) (hex : Text) where
  -- The fit of these readings was saved as the active model.
  abbrev pub IsSaved : List (Reading F) → List (ModelRow F) → Text → List (ModelRow F) → Type 0
  IsSaved readings rows version rows' =
      (model : SensorModel F G I) × (blob : Text) × (fit_sensor_model kit hex
          cfg.sensor_fit_k_default (calibration cfg) readings
        ≡ fitted model blob)
      × (save_model transport model blob rows ≡ (true, rows'))
      × (version ≡ model.model_version)

module _ {F G I : Type 0} ⦃d : Float F⦄ (transport : Json F → Option (Json F))
    (unpickle : Text → Option (G × I)) (kit : Toolkit F G I) (cfg : FitSettings F)
    (hex : Text) where
  fit_and_save_fitted :
      (readings : List (Reading F)) (rows rows' : List (ModelRow F)) (model : SensorModel F G I)
      (blob : Text)
      → fit_sensor_model kit hex cfg.sensor_fit_k_default (calibration cfg) readings
        ≡ fitted model blob
      → save_model transport model blob rows ≡ (true, rows')
      → fit_and_save transport unpickle kit cfg hex readings rows
        ≡ (new_version model.model_version, rows')
  unfolding fit_and_save
  fit_and_save_fitted readings rows rows' model blob e saved = ground arith

  fit_and_save_failed :
      (readings : List (Reading F)) (rows : List (ModelRow F)) (model : SensorModel F G I)
      (blob : Text)
      → fit_sensor_model kit hex cfg.sensor_fit_k_default (calibration cfg) readings
        ≡ fitted model blob
      → save_model transport model blob rows ≡ (false, rows)
      → fit_and_save transport unpickle kit cfg hex readings rows ≡ (raised, rows)
  unfolding fit_and_save
  fit_and_save_failed readings rows model blob e failed = ground arith

  -- A fit that is not saved changes nothing.
  fit_and_save-IsSaved :
      (readings : List (Reading F)) (rows : List (ModelRow F))
      → count_active rows ≤ 1
      → let r = fit_and_save transport unpickle kit cfg hex readings rows in
        ((r ≡ (no_fit, rows)) ⊎ (r ≡ (raised, rows)))
        ⊎ ((v : Text) × (rows' : List (ModelRow F)) × (r ≡ (new_version v, rows'))
            × IsSaved transport kit cfg hex readings rows v rows')
  unfolding fit_and_save
  fit_and_save-IsSaved readings rows one =
      go (fit_sensor_model kit hex cfg.sensor_fit_k_default (calibration cfg) readings) refl
    where
      go :
          (o : Fit F G I)
          → fit_sensor_model kit hex cfg.sensor_fit_k_default (calibration cfg) readings ≡ o
          → let r = fit_and_save transport unpickle kit cfg hex readings rows in
            ((r ≡ (no_fit, rows)) ⊎ (r ≡ (raised, rows)))
            ⊎ ((v : Text) × (rows' : List (ModelRow F)) × (r ≡ (new_version v, rows'))
                × IsSaved transport kit cfg hex readings rows v rows')
      go fit_error e = inl (inl (ground arith))
      go fit_raises e = inl (inr (ground arith))
      go (fitted model blob) e = elim (save_model_active transport model blob rows one).1 [
        | inl (failed, kept, _) ↦
            inl (inr (fit_and_save_failed readings rows model blob e (ground arith)))
        | inr (saved, _, _) ↦
            let rows' = (save_model transport model blob rows).1 in
            let whole : save_model transport model blob rows ≡ (true, rows') = ground arith in
            inr (
              model.model_version,
              rows',
              fit_and_save_fitted readings rows rows' model blob e whole,
              (model, blob, e, whole, refl),
            )
      ]

  -- If at most one model is active, a run of the fit job either gives None or raises, and the table
  -- is as it was; or it gives the version of a new model, the gate was open (enough observations at
  -- the count, and enough of them new since the active model), and the table is the one in which a
  -- model of that version, the fit of the observations of the second query, was saved.
  pub run_fit_job_outcome :
      (counted fetched : List (Observation F)) (rows : List (ModelRow F))
      → count_active rows ≤ 1
      → let r = run_fit_job transport unpickle kit cfg hex counted fetched rows in
        ((r ≡ (no_fit, rows)) ⊎ (r ≡ (raised, rows)))
        ⊎ ((v : Text) × (rows' : List (ModelRow F)) × (r ≡ (new_version v, rows'))
            × IsDue cfg unpickle (count_fittable counted) rows
            × IsSaved transport kit cfg hex (select_fittable fetched) rows v rows')
  unfolding run_fit_job too_few_new
  run_fit_job_outcome counted fetched rows one =
      elim (Bool-cases (ltb (count_fittable counted) cfg.sensor_fit_min_observations)) [
        | inl few ↦ inl (inl (ground arith))
        | inr enough ↦ elim (Option-cases (load_active_model unpickle rows)) [
          | inl broken ↦ inl (inr (ground arith))
          | inr (active, e) ↦
              elim (Bool-cases
                (too_few_new cfg.sensor_fit_min_observations (count_fittable counted) active)) [
                  | inl stale ↦ inl (inl (ground arith))
                  | inr fresh ↦
                      let whole : run_fit_job transport unpickle kit cfg hex counted fetched rows
                          ≡ fit_and_save transport unpickle kit cfg hex (select_fittable fetched)
                              rows =
                        ground arith in
                      elim (fit_and_save-IsSaved (select_fittable fetched) rows one) [
                        | inl (inl same) ↦ inl (inl (whole ∙ same))
                        | inl (inr same) ↦ inl (inr (whole ∙ same))
                        | inr (v, rows', same, saved) ↦ inr (
                          v,
                          rows',
                          whole ∙ same,
                          (
                            active,
                            e,
                            too_few_new-IsOpen cfg (count_fittable counted) active enough fresh,
                          ),
                          saved,
                        )
                      ]
                ]
        ]
      ]
