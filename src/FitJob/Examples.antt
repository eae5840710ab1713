-- ===== src/FitJob/Examples.antt =====
-- A fit job over three observations and an empty table of models.
use pothole_detection_server.Prelude.{
  ◌≡◌, ◌*◌, refl, Bool, false, Option, some, List, [], ◌∷◌, arith, Text, codes, ◌⊎◌, str, dec_text,
  length, All,
}
use pothole_detection_server.Float.{zero_f}
use pothole_detection_server.Float.Fixed.{Fixed, plus, unit, fixed_float, Fixed-IsFloat}
use pothole_detection_server.Json.Tidy.{keep, keep-Agrees}
use pothole_detection_server.Schema.{Observation}
use pothole_detection_server.Events.{event_row}
use pothole_detection_server.Samples.{event, stamp, phone}
use pothole_detection_server.Features.{classifier_features, outlier_features}
use pothole_detection_server.Fusion.{filter, Tables, select_unscored, sort_by, insert_by}
use pothole_detection_server.Sensor.{transform}
use pothole_detection_server.Sensor.Samples.{indices, indices-IsOrder, pdf, any_dense}
use pothole_detection_server.Sensor.Fit.{
  Mixture, Toolkit, fit_sensor_model, energy_order, collect, components_of, assign_classes,
  set_class, class_of_rank,
}
use pothole_detection_server.Sensor.Store.{
  ModelRow, standardization_to_jsonb, severity_to_jsonb, components_to_items, class_map_to_fields,
}
use pothole_detection_server.Sensor.Store.Table.{active_row, save_model, load_active_model}
use pothole_detection_server.FitJob.{
  FitSettings, FitEnd, no_fit, raised, new_version, count_fittable, select_fittable, run_fit_job,
}
use pothole_detection_server.FitJob.Models.{IsDue, IsSaved, run_fit_job_outcome}
use pothole_detection_server.Engine.{get_engine}
use pothole_detection_server.Fusion.Run.{weights}
use pothole_detection_server.Fusion.Samples as Fuse
use pothole_detection_server.Fusion.Job.{done, has_run, all_finite, run_fusion_job}
use pothole_detection_server.Fusion.Job.Ends.{IsPaired}
use pothole_detection_server.FitJob.Fuses.{IsScored, AreFit, run_fusion_job-run_fit_job}

abbrev observations : List (Observation Fixed)
observations =
    event_row phone 5 (event (codes "e1")) stamp
    ∷ event_row phone 6 (event (codes "e2")) stamp
    ∷ event_row phone 7 (event (codes "e3")) stamp
    ∷ []

abbrev mixture : Mixture Fixed Unit
mixture = record {
  gmm = tt;
  means = (zero_f ∷ zero_f ∷ []) ∷ (plus unit ∷ zero_f ∷ []) ∷ (plus unit ∷ plus unit ∷ []) ∷ [];
  covariances = [] ∷ [] ∷ [] ∷ [];
  weights = plus 200_000 ∷ plus 300_000 ∷ plus 500_000 ∷ [];
  bic = zero_f;
}

abbrev kit : Toolkit Fixed Unit Unit
kit = record {
  mean = λ xc. (plus unit, zero_f);
  std = λ xc. (plus unit, zero_f);
  no_variance = λ zc. false;
  norm = λ x. zero_f;
  argsort = λ xs. indices 0 (length xs);
  fit_gmm = λ k zc. some mixture;
  fit_forest = λ xo. some tt;
  sklearn_version = codes "1.4";
  dump = λ g i. codes "blob";
}

abbrev predict : Unit {0} → List Fixed → Option Bool
predict forest xo = some false

abbrev unpickle : Text → Option (Unit {0} × Unit {0})
unpickle blob = some (tt, tt)

abbrev cfg : FitSettings Fixed
cfg = record {
  sensor_fit_min_observations = 3;
  sensor_fit_k_default = 3;
  severity_speed_ref = plus (5 * unit);
  severity_scale = plus (2 * unit);
}

abbrev empty : List (ModelRow Fixed)
empty = []

run_fit_job_outcome_example :
    let r = run_fit_job keep unpickle kit cfg (codes "a1") observations observations empty in
    ((r ≡ (no_fit, empty)) ⊎ (r ≡ (raised, empty)))
    ⊎ ((v : Text) × (rows' : List (ModelRow Fixed)) × (r ≡ (new_version v, rows'))
        × IsDue cfg unpickle (count_fittable observations) empty
        × IsSaved keep kit cfg (codes "a1") (select_fittable observations) empty v rows')
run_fit_job_outcome_example =
    run_fit_job_outcome keep unpickle kit cfg (codes "a1") observations observations empty
      (omega arith)

abbrev after : FitEnd × List (ModelRow Fixed)
after = run_fit_job keep unpickle kit cfg (codes "a1") observations observations empty

after_fits :
    run_fit_job keep unpickle kit cfg (codes "a1") observations observations empty
    ≡ (new_version (codes "sensor_gmm_v1_a1"), after.1)
unfolding run_fit_job load_active_model keep save_model standardization_to_jsonb severity_to_jsonb
    components_to_items class_map_to_fields fit_sensor_model energy_order collect components_of
    assign_classes set_class class_of_rank classifier_features outlier_features transform filter
    event_row active_row dec_text str
after_fits = refl

waiting_fit :
    AreFit fixed_float.is_finite (select_unscored Fuse.precedes 500 Fuse.tables.asset_observation)
unfolding filter outlier_features select_unscored sort_by insert_by event_row
waiting_fit =
    ((refl, (refl, (refl, (refl, (refl, tt))))), ((refl, (refl, (refl, (refl, (refl, tt))))), tt))

run_fusion_job-run_fit_job_example :
    (t' : Tables Fixed) × (run_fusion_job Fuse.precedes Fuse.distance Fuse.within Fuse.to_ms
        Fuse.cfg Fuse.engines Fuse.run pdf predict false
        (load_active_model unpickle after.1)
        Fuse.tables
      ≡ (done, false, t'))
    × IsPaired Fuse.precedes Fuse.distance Fuse.within Fuse.cfg
        (codes "run-1")
        (record Fuse.tables { asset_observation = t'.asset_observation })
        t'
    × All
        (λ o. IsScored (codes "sensor_gmm_v1_a1") 9 o.client_id t'.asset_observation)
        (select_unscored Fuse.precedes 500 Fuse.tables.asset_observation)
unfolding has_run all_finite weights get_engine dec_text
run_fusion_job-run_fit_job_example =
    run_fusion_job-run_fit_job Fixed-IsFloat pdf predict fixed_float.is_finite keep unpickle kit cfg
      (codes "a1") Fuse.precedes Fuse.distance Fuse.within Fuse.to_ms Fuse.cfg Fuse.engines Fuse.run
      observations observations empty after.1 (codes "sensor_gmm_v1_a1") Fuse.tables (omega arith)
      keep-Agrees (λ g i. refl) (λ xs. indices-IsOrder (length xs))
      (λ forest xo fine. (false, refl)) waiting_fit (λ m blob e. any_dense m.components) refl
      after_fits tt (refl, refl) refl
