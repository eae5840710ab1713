-- ===== src/FitJob/Fuses.antt =====
-- A fit job and the fusion job after it: the fusion job scores its batch with the new model and
-- ends well.
use pothole_detection_server.Prelude.{
  ℕ, ◌≤◌, ◌≡◌, refl, sym, subst, Bool, false, Option, some, List, [], ◌∷◌, arith, Text, length,
  same, map, ◌⊎◌, All,
}
use pothole_detection_server.Float.{Float, zero_f, ◌≺◌}
use pothole_detection_server.Float.Laws.{IsFloat}
use pothole_detection_server.Json.{Json}
use pothole_detection_server.Schema.{Observation}
use pothole_detection_server.Engine.{FusionSettings, get_engine}
use pothole_detection_server.Sensor.{SensorModel, ScoreResult, score_observation}
use pothole_detection_server.Sensor.Fit.{Toolkit, fitted, fit_sensor_model}
use pothole_detection_server.Sensor.Fit.Models.{IsOrder}
use pothole_detection_server.Sensor.Verdict.{Answers, Fits, HasDensities}
use pothole_detection_server.Sensor.Store.{ModelRow}
use pothole_detection_server.Sensor.Store.Table.{load_active_model}
use pothole_detection_server.Sensor.Store.Active.{count_active}
use pothole_detection_server.Sensor.Store.RoundTrip.{KeepsJson}
use pothole_detection_server.Fusion.{Tables, JobSettings, select_unscored}
use pothole_detection_server.Fusion.Run.{with_score, score_rows, score_unscored}
use pothole_detection_server.Fusion.Pairs.{IsKeyed}
use pothole_detection_server.Fusion.Job.{RunContext, done, score_with, run_fusion_job}
use pothole_detection_server.Fusion.Job.Ends.{IsPaired, IsNewRun, run_fusion_job_done}
use pothole_detection_server.FitJob.{FitSettings, new_version, select_fittable, run_fit_job}
use pothole_detection_server.FitJob.Models.{calibration}
use pothole_detection_server.FitJob.Serves.{run_fit_job-Serves}

-- The observations of the id were scored by the version at that time.
abbrev pub IsScored : {F : Type 0} → Text → ℕ → Text → List (Observation F) → Type 0
IsScored version now id = All (λ o.
    (same o.client_id id ≡ false)
    ⊎ ((o.scored_at ≡ some now) × (o.sensor_model_version ≡ some version)))

module _ {F : Type 0} (r : ScoreResult F) (version : Text) (now : ℕ) (id : Text) where
  with_score-IsScored :
      (table : List (Observation F))
      → IsScored version now id (map (with_score id r version now) table)
  with_score-IsScored [] = tt
  with_score-IsScored (o ∷ os) = (ground arith, with_score-IsScored os)

  with_score-IsScored_other :
      (k : Text) (table : List (Observation F))
      → IsScored version now k table
      → IsScored version now k (map (with_score id r version now) table)
  with_score-IsScored_other k [] h = tt
  with_score-IsScored_other k (o ∷ os) (ho, h) = (ground arith, with_score-IsScored_other k os h)

module _ {F G I : Type 0} ⦃d : Float F⦄ (pdf : List F → List F → List (List F) → Option F)
    (predict : I → List F → Option Bool) (model : SensorModel F G I) (now : ℕ) where
  -- The model gives the observations a score.
  abbrev pub Scores : List (Observation F) → Type 0
  Scores = All (λ o.
      (r : ScoreResult F) × (score_observation pdf predict model o.magnitude o.accel_std
          o.gbar_in_max o.speed_mps
        ≡ some r))

  score_rows-IsScored :
      (rs table : List (Observation F))
      → Scores rs
      → (table' : List (Observation F)) × (score_rows pdf predict model now rs table ≡ some table')
        × ((k : Text)
            → IsScored model.model_version now k table
            → IsScored model.model_version now k table')
        × All (λ r. IsScored model.model_version now r.client_id table') rs
  unfolding score_rows
  score_rows-IsScored [] table total = (table, refl, λ k h. h, tt)
  score_rows-IsScored (r ∷ rs) table ((res, e), total) =
      let next = map (with_score r.client_id res model.model_version now) table in
      let (table', e', kept, scored) = score_rows-IsScored rs next total in
      (
        table',
        rw (score_rows, e) e',
        λ k h. kept k (with_score-IsScored_other res model.model_version now r.client_id k table h),
        (
          kept r.client_id (with_score-IsScored res model.model_version now r.client_id table),
          scored,
        ),
      )

-- The forest takes the features of the observations.
abbrev pub AreFit : {F : Type 0} ⦃d : Float F⦄ → (F → Bool) → List (Observation F) → Type 0
AreFit takes = All (λ o. Fits takes o.magnitude o.accel_std o.gbar_in_max o.speed_mps)

module _ {F G I : Type 0} ⦃d : Float F⦄ (pdf : List F → List F → List (List F) → Option F)
    (predict : I → List F → Option Bool) (takes : F → Bool) (model : SensorModel F G I) where
  Scores-AreFit :
      ((m s g v : Option F)
        → Fits takes m s g v
        → (r : ScoreResult F) × (score_observation pdf predict model m s g v ≡ some r))
      → (rs : List (Observation F)) → AreFit takes rs
      → Scores pdf predict model 0 rs
  Scores-AreFit total [] fit = tt
  Scores-AreFit total (r ∷ rs) (here, fit) =
      (total r.magnitude r.accel_std r.gbar_in_max r.speed_mps here, Scores-AreFit total rs fit)

module _ {F G I : Type 0} ⦃d : Float F⦄ (laws : IsFloat F)
    (pdf : List F → List F → List (List F) → Option F) (predict : I → List F → Option Bool)
    (takes : F → Bool) (transport : Json F → Option (Json F)) (unpickle : Text → Option (G × I))
    (kit : Toolkit F G I) (fit_cfg : FitSettings F) (hex : Text) (precedes : Text → Text → Bool)
    (distance : F × F → F × F → F) (within : F × F → F × F → F → Bool) (to_ms : ℕ → ℕ → F)
    (cfg : JobSettings F) (engines : FusionSettings F) (run : RunContext F) where
  pub run_fusion_job-run_fit_job :
      (counted fetched : List (Observation F)) (rows rows' : List (ModelRow F)) (v : Text)
      (t : Tables F)
      → count_active rows ≤ 1
      → KeepsJson transport
      → ((g : G) (i : I) → unpickle (kit.dump g i) ≡ some (g, i))
      → ((xs : List F) → IsOrder (length xs) (kit.argsort xs))
      → Answers takes predict
      → AreFit takes (select_unscored precedes cfg.fusion_batch_size t.asset_observation)
      → ((model : SensorModel F G I) (blob : Text)
          → fit_sensor_model kit hex fit_cfg.sensor_fit_k_default
              (calibration fit_cfg)
              (select_fittable fetched)
            ≡ fitted model blob
          → HasDensities pdf model.components)
      → zero_f ≺ fit_cfg.severity_speed_ref
      → run_fit_job transport unpickle kit fit_cfg hex counted fetched rows ≡ (new_version v, rows')
      → IsKeyed t.fusion_pair
      → IsNewRun run.run_id (get_engine engines (some v)) t.fusion_run
      → zero_f ≺ engines.severity_speed_ref
      → (t' : Tables F) × (run_fusion_job precedes distance within to_ms cfg engines run pdf predict
            false
            (load_active_model unpickle rows')
            t
          ≡ (done, false, t'))
        × IsPaired precedes distance within cfg run.run_id
            (record t { asset_observation = t'.asset_observation })
            t'
        × All
            (λ o. IsScored v run.now o.client_id t'.asset_observation)
            (select_unscored precedes cfg.fusion_batch_size t.asset_observation)
  unfolding score_with score_unscored
  run_fusion_job-run_fit_job counted fetched rows rows' v t one keeps loads sorts answers fit dense
        ref e key fresh engine_ref =
      let (m, loaded, same_version, _, total) =
        run_fit_job-Serves laws pdf predict takes transport unpickle kit fit_cfg hex counted fetched
          rows rows' v one keeps loads sorts answers dense ref e in
      let batch = select_unscored precedes cfg.fusion_batch_size t.asset_observation in
      let (table, scored, _, by_model) =
        score_rows-IsScored pdf predict m run.now batch t.asset_observation
          (Scores-AreFit pdf predict takes m total batch fit) in
      let whole : score_with precedes distance within to_ms cfg engines run pdf predict (some m)
            t.asset_observation
          ≡ (some (length batch), table) =
        ground (arith, scored) in
      let (t', ended, paired) =
        run_fusion_job_done laws precedes distance within to_ms cfg engines run pdf predict (some m)
          t (length batch) table key
          (subst (λ w. IsNewRun run.run_id (get_engine engines (some w)) t.fusion_run)
            (sym same_version) fresh)
          engine_ref whole in
      let same_rows : t'.asset_observation ≡ table = paired.3 in
      (
        t',
        rw loaded ended,
        subst
            (λ os.
              IsPaired precedes distance within cfg run.run_id (record t { asset_observation = os })
                t')
            {x = table} {y = t'.asset_observation} (sym same_rows) paired,
        subst (λ os. All (λ o. IsScored v run.now o.client_id os) batch) {x = table}
            {y = t'.asset_observation} (sym same_rows)
            (subst (λ w. All (λ o. IsScored w run.now o.client_id table) batch) same_version
              by_model),
      )
