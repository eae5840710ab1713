-- ===== src/Fusion/Examples.antt =====
-- A run of the fusion job over two observations and one frame.
use pothole_detection_server.Prelude.{
  ◌*◌, List, Bool, Option, true, none, Text, if◌then◌else◌, ◌≡◌, ◌≢◌, refl, false, some, [], ◌∷◌,
  ◌⊎◌, codes, All, map, ◌&&◌, length, ◌-◌, dec_text,
}
use pothole_detection_server.Float.Fixed.{Fixed, plus, unit, fixed_float, Fixed-IsFloat}
use pothole_detection_server.Fusion.{Tables, filter, any_of, select_unscored, sort_by, insert_by}
use pothole_detection_server.Fusion.Nearest.{any, can_join, IsNearest, pairing-IsNearest}
use pothole_detection_server.Fusion.Nearest as Near
use pothole_detection_server.Fusion.Job.{
  raised, skipped, done, RunContext, has_run, all_finite, score_with, run_fusion_job,
}
use pothole_detection_server.Fusion.Job.Ends.{
  IsPaired, run_fusion_job_rolls_back, run_fusion_job_done,
}
use pothole_detection_server.Sensor.{
  score_observation, class_posteriors, standardized, transform, add_posterior, class_of,
}
use pothole_detection_server.Features.{classifier_features, outlier_features, severity}
use pothole_detection_server.Events.{event_row}
use pothole_detection_server.Sensor.Samples as Sense
use pothole_detection_server.Fusion.Job.Blocked.{run_each, run_fusion_job_blocked}
use pothole_detection_server.Fusion.Samples.{
  first, second, tables, distance, within, precedes, to_ms, cfg, engines, run, no_model, pdf,
  predict,
}
use pothole_detection_server.Engine.{get_engine}
use pothole_detection_server.Fusion.Run.{weights}
use pothole_detection_server.Fusion.Backlog.{waiting}
use pothole_detection_server.Fusion.Job.Drain.{run_all, run_fusion_job_drains}

pairing-IsNearest_example :
    let pairs =
      Near.candidates precedes distance within cfg
        (codes "f1" ∷ [])
        tables.asset_observation
        tables.asset_frame in
    All (IsNearest precedes distance within cfg (codes "f1" ∷ []) tables.asset_observation) pairs
    × (map (λ x. x.0) pairs
        ≡ filter
            (λ f.
              any_of f.client_id (codes "f1" ∷ [])
              && any (can_join precedes distance within cfg f) tables.asset_observation)
            tables.asset_frame)
pairing-IsNearest_example =
    pairing-IsNearest precedes distance within cfg (codes "f1" ∷ []) tables.asset_observation
      tables.asset_frame

run_fusion_job_rolls_back_example :
    let (end, held', t') =
      run_fusion_job precedes distance within to_ms cfg engines run pdf predict false
        (some no_model)
        tables in
    (held' ≡ false)
    × ((end ≡ done)
        ⊎ ((t'.asset_frame ≡ tables.asset_frame)
            × (t'.fusion_pair ≡ tables.fusion_pair)
            × (t'.fusion_run ≡ tables.fusion_run)))
    × ((end ≢ skipped) ⊎ (t' ≡ tables))
run_fusion_job_rolls_back_example =
    run_fusion_job_rolls_back Fixed-IsFloat precedes distance within to_ms cfg engines run pdf
      predict false (some no_model) tables

run_fusion_job_done_example :
    (t' : Tables Fixed) × (run_fusion_job precedes distance within to_ms cfg engines run pdf predict
        false
        (some no_model)
        tables
      ≡ (done, false, t'))
    × IsPaired precedes distance within cfg (codes "run-1") tables t'
unfolding score_with has_run all_finite weights get_engine
run_fusion_job_done_example =
    run_fusion_job_done Fixed-IsFloat precedes distance within to_ms cfg engines run pdf predict
      no_model tables 0 tables.asset_observation tt (refl, refl) refl refl

-- A second run has an id of its own.
abbrev second_run : RunContext Fixed
second_run = record run { run_id = codes "run-2" }

run_fusion_job_drains_example :
    (t' : Tables Fixed) × (run_all Fixed-IsFloat precedes distance within to_ms cfg engines pdf
        predict no_model
        (run ∷ second_run ∷ [])
        tables
      ≡ some t')
    × (length (waiting t'.asset_frame) ≡ length (waiting tables.asset_frame) - 2 * 500)
unfolding score_with any_of has_run all_finite weights get_engine dec_text
run_fusion_job_drains_example =
    run_fusion_job_drains Fixed-IsFloat precedes distance within to_ms cfg engines pdf predict
      no_model (run ∷ second_run ∷ []) tables (λ r rows. (0, rows, refl)) refl refl
      (refl, (refl, tt), (refl, tt, tt)) tt (refl, tt)

-- A forest that refuses numbers beyond 10, as sklearn refuses those beyond float32.
abbrev is_small : List Fixed → Bool
is_small [] = true
is_small (x ∷ xs) = fixed_float.le x (plus (10 * unit)) && is_small xs

abbrev refuses_large : Text → List Fixed → Option Bool
refuses_large forest xo = if is_small xo then some false else none

run_fusion_job_blocked_example :
    run_each precedes distance within to_ms cfg engines Sense.pdf refuses_large Sense.model
      (run ∷ second_run ∷ [])
      tables
    ≡ (raised ∷ raised ∷ [], tables)
unfolding select_unscored filter sort_by insert_by event_row score_observation class_posteriors
    standardized classifier_features outlier_features severity transform add_posterior class_of
    dec_text
run_fusion_job_blocked_example =
    run_fusion_job_blocked precedes distance within to_ms cfg engines Sense.pdf refuses_large
      Sense.model (run ∷ second_run ∷ []) tables [] (second ∷ []) first refl refl
