-- ===== src/Sensor/Fit/Outcome.antt =====
-- Where a model that a fit gives comes from.
use pothole_detection_server.Prelude.{
  ℕ, ◌≤◌, ◌≡◌, List, ◌++◌, arith, ltb, Text, codes, take, some, inl, inr, Bool-cases, Option-cases,
  length,
}
use pothole_detection_server.Float.{Float}
use pothole_detection_server.Sensor.{Standardization, SeverityCalibration, Component, SensorModel}
use pothole_detection_server.Sensor.Fit.{
  Reading, Mixture, Toolkit, fitted, collect, components_of, features_of, outliers_of,
  transform_row, model_of, fit_models, standardization_of, fit_sensor_model,
}

-- `model_version` of a fit
abbrev pub version_for : Text → Text
version_for hex = codes "sensor_gmm_v1_" ++ take 12 hex

module _ {F G I : Type 0} ⦃d : Float F⦄ (kit : Toolkit F G I) where
  -- The model of a mixture, a forest and their components, and its blob.
  abbrev pub IsFitOf : Text → ℕ → ℕ → SeverityCalibration F → SensorModel F G I → Text → Type 0
  IsFitOf version k n calib model blob =
      (std : Standardization F) × (mix : Mixture F G) × (forest : I) × (cs : List (Component F))
      × (components_of k mix.means mix.covariances mix.weights ≡ some cs)
      × (model ≡ model_of kit version k n calib std mix forest cs)
      × (blob ≡ kit.dump mix.gmm forest)

  fit_models-IsFitOf :
      (version : Text) (k n : ℕ) (calib : SeverityCalibration F) (std : Standardization F)
      (xo zc : List (List F)) (model : SensorModel F G I) (blob : Text)
      → fit_models kit version k n calib std xo zc ≡ fitted model blob
      → IsFitOf version k n calib model blob
  unfolding fit_models
  fit_models-IsFitOf version k n calib std xo zc model blob e =
      elim (Bool-cases (kit.no_variance zc)) [
        | inl degenerate ↦ absurd (ground arith)
        | inr varied ↦ elim (Option-cases (kit.fit_gmm k zc)) [
          | inl failed ↦ absurd (ground arith)
          | inr (mix, em) ↦ elim (Option-cases (kit.fit_forest xo)) [
            | inl failed ↦ absurd (ground arith)
            | inr (forest, ef) ↦
                elim (Option-cases (components_of k mix.means mix.covariances mix.weights)) [
                  | inl failed ↦ absurd (ground arith)
                  | inr (cs, ec) ↦ (std, mix, forest, cs, ec, ground arith, ground arith)
                ]
          ]
        ]
      ]

  pub fit_sensor_model-IsFitOf :
      (hex : Text) (k : ℕ) (calib : SeverityCalibration F) (rows : List (Reading F))
      (model : SensorModel F G I) (blob : Text)
      → fit_sensor_model kit hex k calib rows ≡ fitted model blob
      → (k ≤ length rows) × IsFitOf (version_for hex) k (length rows) calib model blob
  unfolding fit_sensor_model
  fit_sensor_model-IsFitOf hex k calib rows model blob e = elim (Bool-cases (ltb (length rows) k)) [
    | inl few ↦ absurd (ground arith)
    | inr enough ↦ elim (Option-cases (collect features_of rows)) [
      | inl failed ↦ absurd (ground arith)
      | inr (xc, ec) ↦ elim (Option-cases (collect outliers_of rows)) [
        | inl failed ↦ absurd (ground arith)
        | inr (xo, eo) ↦
            let std = standardization_of kit xc in
            elim (Option-cases (collect (transform_row std) xc)) [
              | inl failed ↦ absurd (ground arith)
              | inr (zc, ez) ↦ (
                ground arith,
                fit_models-IsFitOf (version_for hex) k (length rows) calib std xo zc model blob
                    (ground arith),
              )
            ]
      ]
    ]
  ]
