-- ===== src/FitJob/Serves.antt =====
-- The model that a fit job saves is the one that the other jobs load, and it scores every
-- observation that its forest takes.
use pothole_detection_server.Prelude.{
  ℕ, ◌≤◌, ◌≡◌, ◌∙◌, sym, subst, Bool, Option, some, List, arith, Text, length, inl, inr,
}
use pothole_detection_server.Float.{Float, zero_f, ◌≺◌}
use pothole_detection_server.Float.Laws.{IsFloat}
use pothole_detection_server.Json.{Json}
use pothole_detection_server.Schema.{Observation}
use pothole_detection_server.Sensor.{
  SeverityCalibration, SensorModel, ScoreResult, score_observation,
}
use pothole_detection_server.Sensor.Fit.{Reading, Toolkit, fitted, fit_sensor_model, model_of}
use pothole_detection_server.Sensor.Fit.Outcome.{fit_sensor_model-IsFitOf}
use pothole_detection_server.Sensor.Fit.Models.{IsOrder, length-map}
use pothole_detection_server.Sensor.Scored.{score_observation-fit_sensor_model}
use pothole_detection_server.Sensor.Verdict.{Answers, Fits, HasDensities}
use pothole_detection_server.Sensor.Store.{ModelRow}
use pothole_detection_server.Sensor.Store.Table.{load_active_model}
use pothole_detection_server.Sensor.Store.Active.{count_active}
use pothole_detection_server.Sensor.Store.RoundTrip.{
  KeepsJson, load_active_model-save_model, score_observation-IsCopy,
}
use pothole_detection_server.FitJob.{
  FitSettings, new_version, count_fittable, select_fittable, run_fit_job,
}
use pothole_detection_server.FitJob.Models.{calibration, IsSaved, run_fit_job_outcome}

length-select_fittable :
    {F : Type 0} (rows : List (Observation F)) → length (select_fittable rows) ≡ count_fittable rows
unfolding select_fittable count_fittable
length-select_fittable rows = length-map _ _

module _ {F G I : Type 0} ⦃d : Float F⦄ (kit : Toolkit F G I) where
  fitted_parts :
      (hex : Text) (k : ℕ) (calib : SeverityCalibration F) (readings : List (Reading F))
      (model : SensorModel F G I) (blob : Text)
      → fit_sensor_model kit hex k calib readings ≡ fitted model blob
      → (g : G) × (i : I) × (model.gmm ≡ some g)
        × (model.iforest ≡ some i)
        × (blob ≡ kit.dump g i)
        × (model.n_observations ≡ length readings)
        × (model.severity_calib ≡ calib)
  unfolding model_of
  fitted_parts hex k calib readings model blob e =
      let (_, (std, mix, forest, cs, _, em, eb)) =
        fit_sensor_model-IsFitOf kit hex k calib readings model blob e in
      (
        mix.gmm,
        forest,
        ground (arith, em),
        ground (arith, em),
        eb,
        ground (arith, em),
        ground (arith, em),
      )

module _ {F G I : Type 0} ⦃d : Float F⦄ (pdf : List F → List F → List (List F) → Option F)
    (predict : I → List F → Option Bool) (takes : F → Bool) (unpickle : Text → Option (G × I)) where
  -- The active model of a table scores every observation that the forest takes, and was fitted to
  -- `n` observations.
  abbrev pub Serves : List (ModelRow F) → Text → ℕ → Type 0
  Serves rows v n =
      (m : SensorModel F G I) × (load_active_model unpickle rows ≡ some (some m))
      × (m.model_version ≡ v)
      × (m.n_observations ≡ n)
      × ((magnitude accel_std gbar_in_max speed_mps : Option F)
          → Fits takes magnitude accel_std gbar_in_max speed_mps
          → (r : ScoreResult F) × (score_observation pdf predict m magnitude accel_std gbar_in_max
                speed_mps
              ≡ some r))

module _ {F G I : Type 0} ⦃d : Float F⦄ (laws : IsFloat F)
    (pdf : List F → List F → List (List F) → Option F) (predict : I → List F → Option Bool)
    (takes : F → Bool) (transport : Json F → Option (Json F)) (unpickle : Text → Option (G × I))
    (kit : Toolkit F G I) (cfg : FitSettings F) (hex : Text) where
  saved-Serves :
      (readings : List (Reading F)) (rows rows' : List (ModelRow F)) (v : Text)
      → count_active rows ≤ 1
      → KeepsJson transport
      → ((g : G) (i : I) → unpickle (kit.dump g i) ≡ some (g, i))
      → ((xs : List F) → IsOrder (length xs) (kit.argsort xs))
      → Answers takes predict
      → ((model : SensorModel F G I) (blob : Text)
          → fit_sensor_model kit hex cfg.sensor_fit_k_default (calibration cfg) readings
            ≡ fitted model blob
          → HasDensities pdf model.components)
      → zero_f ≺ cfg.severity_speed_ref
      → IsSaved transport kit cfg hex readings rows v rows'
      → Serves pdf predict takes unpickle rows' v (length readings)
  saved-Serves readings rows rows' v one keeps loads sorts answers dense ref
        (model, blob, e, saved, ev) =
      let (g, i, eg, ei, eb, en, es) =
        fitted_parts kit hex cfg.sensor_fit_k_default (calibration cfg) readings model blob e in
      let (m, em, copy) =
        load_active_model-save_model transport keeps unpickle model blob rows g i one
          (subst (λ b. unpickle b ≡ some (g, i)) (sym eb) (loads g i)) eg ei (ground arith) in
      (
        m,
        subst (λ p. load_active_model unpickle p.1 ≡ some (some m)) saved em,
        copy.same_version ∙ sym ev,
        copy.same_n_observations ∙ en,
        λ a b c s fits.
            let (r, er) =
              score_observation-fit_sensor_model laws pdf predict takes kit hex
                cfg.sensor_fit_k_default (calibration cfg) readings model blob a b c s sorts answers
                fits e (dense model blob e) (subst (λ t. zero_f ≺ t.speed_ref) (sym es) ref) in
            (r, score_observation-IsCopy pdf predict model m a b c s copy ∙ er),
      )

  -- If at most one model is active, JSONB keeps the JSON values up to the order of keys,
  -- `joblib.load` reads what `joblib.dump` writes, `argsort` gives every index once, the forest
  -- answers what it takes, the fitted components have densities and the reference speed is
  -- positive, then after a run that gives a new version, `load_active_model` gives a model of that
  -- version, fitted to the observations of the second query, that gives a score to every
  -- observation that the forest takes.
  pub run_fit_job-Serves :
      (counted fetched : List (Observation F)) (rows rows' : List (ModelRow F)) (v : Text)
      → count_active rows ≤ 1
      → KeepsJson transport
      → ((g : G) (i : I) → unpickle (kit.dump g i) ≡ some (g, i))
      → ((xs : List F) → IsOrder (length xs) (kit.argsort xs))
      → Answers takes predict
      → ((model : SensorModel F G I) (blob : Text)
          → fit_sensor_model kit hex cfg.sensor_fit_k_default
              (calibration cfg)
              (select_fittable fetched)
            ≡ fitted model blob
          → HasDensities pdf model.components)
      → zero_f ≺ cfg.severity_speed_ref
      → run_fit_job transport unpickle kit cfg hex counted fetched rows ≡ (new_version v, rows')
      → Serves pdf predict takes unpickle rows' v (count_fittable fetched)
  run_fit_job-Serves counted fetched rows rows' v one keeps loads sorts answers dense ref e =
      elim (run_fit_job_outcome transport unpickle kit cfg hex counted fetched rows one) [
        | inl (inl same) ↦ absurd (cc)
        | inl (inr same) ↦ absurd (cc)
        | inr (w, rows2, same, _, saved) ↦
            let version : w ≡ v = cc in
            let table : rows2 ≡ rows' = cc in
            subst (λ n. Serves pdf predict takes unpickle rows' v n)
              (length-select_fittable fetched)
              (saved-Serves (select_fittable fetched) rows rows' v one keeps loads sorts answers
                dense ref
                (subst (λ w'. IsSaved transport kit cfg hex (select_fittable fetched) rows w' rows')
                  {x = w} {y = v} version
                  (subst (IsSaved transport kit cfg hex (select_fittable fetched) rows w)
                    {x = rows2} {y = rows'} table saved)))
      ]
