-- ===== src/Fusion/Job/Drain.antt =====
-- Runs of the fusion job one after the other empty the backlog of frames.
use pothole_detection_server.Prelude.{
  ℕ, ◌-◌, ◌*◌, ◌≡◌, ◌∙◌, refl, ap, sym, subst, Bool, false, Option, none, some, List, [], ◌∷◌,
  arith, Text, length, map, inl, inr, Option-cases, ◌++◌, All, true, same,
}
use pothole_detection_server.Float.{Float, zero_f, ◌≺◌}
use pothole_detection_server.Float.Laws.{IsFloat}
use pothole_detection_server.Schema.{Observation, Frame}
use pothole_detection_server.Engine.{Engine, FusionSettings, get_engine}
use pothole_detection_server.Sensor.{SensorModel}
use pothole_detection_server.Fusion.{
  FusionRun, RunMetrics, Tables, JobSettings, select_frame_batch, pairing,
}
use pothole_detection_server.Fusion.Run.{weights, mark_processed, fuse_pairs}
use pothole_detection_server.Fusion.Backlog.{
  waiting, mark_processed-nil, waiting-select_frame_batch,
}
use pothole_detection_server.Fusion.Pairs.{IsKeyed}
use pothole_detection_server.Fusion.Job.{
  skipped, raised, done, RunContext, version_of, has_run, all_finite, new_run, insert_run,
  update_run, fused_tables, fuse_batch, pair_and_fuse, score_with, fusion_body, run_fusion_job,
}
use pothole_detection_server.Fusion.Job.Ends.{batch, run_fusion_job_done}
use pothole_detection_server.Cluster.Lists.{HasNoRepeat}

pub ids-mark_processed :
    {F : Type 0} (ks : List Text) (now : ℕ) (fs : List (Frame F))
    → map (λ f. f.client_id) (mark_processed ks now fs) ≡ map (λ f. f.client_id) fs
unfolding mark_processed
ids-mark_processed ks now [] = refl
ids-mark_processed ks now (f ∷ fs) = ground (arith, ids-mark_processed ks now fs)

-- The ids of the runs differ, and none has a row in fusion_run.
abbrev pub AreNewRuns : {F : Type 0} → List (RunContext F) → List (FusionRun F) → Type 0
AreNewRuns [] rows = Unit
AreNewRuns (run ∷ runs) rows =
    (has_run run.run_id rows ≡ false)
    × All (λ r. same run.run_id r.run_id ≡ false) runs
    × AreNewRuns runs rows

module _ {F : Type 0} where
  has_run-update_run :
      (id k : Text) (now n : ℕ) (m : RunMetrics) (rows : List (FusionRun F))
      → has_run k (update_run id now n m rows) ≡ has_run k rows
  unfolding has_run update_run
  has_run-update_run id k now n m [] = refl
  has_run-update_run id k now n m (r ∷ rows) = ground (arith, has_run-update_run id k now n m rows)

  has_run-append :
      (k : Text) (rows : List (FusionRun F)) (r : FusionRun F)
      → same r.run_id k ≡ false
      → has_run k rows ≡ false
      → has_run k (rows ++ r ∷ []) ≡ false
  unfolding has_run
  has_run-append k [] r other new = ground arith
  has_run-append k (x ∷ rows) r other new = ground (arith, has_run-append k rows r)

  has_run-insert_run :
      ⦃d : Float F⦄ (id k : Text) (engine : Engine F) (n : ℕ) (rows rows' : List (FusionRun F))
      → same id k ≡ false
      → has_run k rows ≡ false
      → insert_run id engine n rows ≡ some rows'
      → has_run k rows' ≡ false
  unfolding insert_run
  has_run-insert_run id k engine n rows rows' other new e =
      ground (arith, has_run-append k rows (new_run id engine n) other new)

module _ {F G I : Type 0} ⦃d : Float F⦄ (precedes : Text → Text → Bool)
    (distance : F × F → F × F → F) (within : F × F → F × F → F → Bool) (to_ms : ℕ → ℕ → F)
    (cfg : JobSettings F) (engines : FusionSettings F) where
  module _ (run : RunContext F) where
    frames-fuse_batch :
        (model : Option (SensorModel F G I)) (ids : List Text) (t t' : Tables F) (n : ℕ)
        → fuse_batch precedes distance within to_ms cfg engines run model ids t ≡ (some n, t')
        → t'.asset_frame ≡ mark_processed ids run.now t.asset_frame
    unfolding fuse_batch fused_tables
    frames-fuse_batch model ids t t' n e = ground arith

    frames-pair_and_fuse :
        (model : Option (SensorModel F G I)) (t t' : Tables F) (n : ℕ)
        → pair_and_fuse precedes distance within to_ms cfg engines run model t ≡ (some n, t')
        → t'.asset_frame
          ≡ mark_processed (batch precedes distance within cfg t) run.now t.asset_frame
    unfolding pair_and_fuse
    frames-pair_and_fuse model t t' n e = go (batch precedes distance within cfg t) refl
      where
        go :
            (ids : List Text)
            → batch precedes distance within cfg t ≡ ids
            → t'.asset_frame ≡ mark_processed ids run.now t.asset_frame
        go [] found =
            let kept : t' ≡ t = ground (arith, found) in
            ap (λ x. x.asset_frame) kept ∙ sym (mark_processed-nil run.now t.asset_frame)
        go (id ∷ ids) found =
            frames-fuse_batch model (id ∷ ids) t t' n (rw (pair_and_fuse, found) at e)

    has_run-fuse_batch :
        (model : Option (SensorModel F G I)) (ids : List Text) (t : Tables F) (k : Text)
        → same run.run_id k ≡ false
        → has_run k t.fusion_run ≡ false
        → has_run k
            (fuse_batch precedes distance within to_ms cfg engines run model ids t).1.fusion_run
          ≡ false
    unfolding fuse_batch fused_tables
    has_run-fuse_batch model ids t k other new =
        let engine = get_engine engines (version_of model) in
        let found = pairing precedes distance within cfg ids t.asset_observation t.asset_frame in
        elim (Option-cases (insert_run run.run_id engine (length ids) t.fusion_run)) [
          | inl refused ↦ rw (fuse_batch, refused) new
          | inr (runs, added) ↦
              elim (Option-cases
                (fuse_pairs distance to_ms run.runtime_ms engine run.run_id found t.fusion_pair)) [
                  | inl failed ↦ rw (fuse_batch, added, failed) new
                  | inr (pairs, e) ↦
                      rw (fuse_batch, added, e, fused_tables, has_run-update_run)
                        (has_run-insert_run run.run_id k engine (length ids) t.fusion_run runs other
                          new added)
                ]
        ]

    has_run-pair_and_fuse :
        (model : Option (SensorModel F G I)) (t : Tables F) (k : Text)
        → same run.run_id k ≡ false
        → has_run k t.fusion_run ≡ false
        → has_run k
            (pair_and_fuse precedes distance within to_ms cfg engines run model t).1.fusion_run
          ≡ false
    unfolding pair_and_fuse
    has_run-pair_and_fuse model t k other new = go (batch precedes distance within cfg t) refl
      where
        go :
            (ids : List Text)
            → batch precedes distance within cfg t ≡ ids
            → has_run k
                (pair_and_fuse precedes distance within to_ms cfg engines run model t).1.fusion_run
              ≡ false
        go [] e = rw (pair_and_fuse, e) new
        go (id ∷ ids) e = rw (pair_and_fuse, e) (has_run-fuse_batch model (id ∷ ids) t k other new)

    module _ (pdf : List F → List F → List (List F) → Option F)
        (predict : I → List F → Option Bool) where
      frames-run_fusion_job :
          (model : Option (SensorModel F G I)) (t t' : Tables F) (n : ℕ)
          (rows : List (Observation F))
          → score_with precedes distance within to_ms cfg engines run pdf predict model
              t.asset_observation
            ≡ (some n, rows)
          → run_fusion_job precedes distance within to_ms cfg engines run pdf predict false
              (some model)
              t
            ≡ (done, false, t')
          → t'.asset_frame
            ≡ mark_processed
                (select_frame_batch precedes cfg.fusion_batch_size t.asset_frame)
                run.now
                t.asset_frame
      unfolding run_fusion_job fusion_body
      frames-run_fusion_job model t t' n rows scored e =
          let middle : Tables F = record t { asset_observation = rows } in
          let (m, last) =
            pair_and_fuse precedes distance within to_ms cfg engines run model middle in
          elim (Option-cases m) [
            | inl failed ↦ absurd (ground (arith, scored))
            | inr (k, ended) ↦
                let same_tables : last ≡ t' = ground (arith, scored) in
                let whole : pair_and_fuse precedes distance within to_ms cfg engines run model
                      middle
                    ≡ (some k, t') =
                  ground arith in
                frames-pair_and_fuse model middle t' k whole
          ]

      has_run-run_fusion_job :
          (model : Option (SensorModel F G I)) (t : Tables F) (k : Text)
          → same run.run_id k ≡ false
          → has_run k t.fusion_run ≡ false
          → has_run k
              (run_fusion_job precedes distance within to_ms cfg engines run pdf predict false
                (some model)
                t).2.fusion_run
            ≡ false
      unfolding run_fusion_job fusion_body
      has_run-run_fusion_job model t k other new =
          let (n, rows) =
            score_with precedes distance within to_ms cfg engines run pdf predict model
              t.asset_observation in
          ground
            (arith, has_run-pair_and_fuse model (record t { asset_observation = rows }) k other new)

      AreNewRuns-run_fusion_job :
          (model : Option (SensorModel F G I)) (t t' : Tables F) (runs : List (RunContext F))
          → run_fusion_job precedes distance within to_ms cfg engines run pdf predict false
              (some model)
              t
            ≡ (done, false, t')
          → All (λ r. same run.run_id r.run_id ≡ false) runs
          → AreNewRuns runs t.fusion_run
          → AreNewRuns runs t'.fusion_run
      AreNewRuns-run_fusion_job model t t' [] e later new = tt
      AreNewRuns-run_fusion_job model t t' (r ∷ runs) e (other, later) (here, apart, new) = (
        subst (λ u. has_run r.run_id u.2.fusion_run ≡ false) e
            (has_run-run_fusion_job model t r.run_id other here),
        apart,
        AreNewRuns-run_fusion_job model t t' runs e later new,
      )

module _ {F G I : Type 0} ⦃d : Float F⦄ (laws : IsFloat F) (precedes : Text → Text → Bool)
    (distance : F × F → F × F → F) (within : F × F → F × F → F → Bool) (to_ms : ℕ → ℕ → F)
    (cfg : JobSettings F) (engines : FusionSettings F)
    (pdf : List F → List F → List (List F) → Option F) (predict : I → List F → Option Bool)
    (model : Option (SensorModel F G I)) where
  -- Runs of the job one after the other, each with the lock free and the same model; `none` if one
  -- does not end well.
  abbrev pub run_all : List (RunContext F) → Tables F → Option (Tables F)
  run_all [] t = some t
  run_all (run ∷ runs) t =
      let r =
        run_fusion_job precedes distance within to_ms cfg engines run pdf predict false (some model)
          t in
      elim r.0 [ done ↦ run_all runs r.2 | raised ↦ none | skipped ↦ none ]

  run_all_done :
      (run : RunContext F) (runs : List (RunContext F)) (t t' : Tables F)
      → run_fusion_job precedes distance within to_ms cfg engines run pdf predict false
          (some model)
          t
        ≡ (done, false, t')
      → run_all (run ∷ runs) t ≡ run_all runs t'
  run_all_done run runs t t' e =
      ap (λ r. elim r.0 [ done ↦ run_all runs r.2 | raised ↦ none | skipped ↦ none ]) e

  pub run_fusion_job_drains :
      (runs : List (RunContext F)) (t : Tables F)
      → ((run : RunContext F) (rows : List (Observation F))
          → (n : ℕ) × (rows' : List (Observation F)) × (score_with precedes distance within to_ms
                cfg engines run pdf predict model rows
              ≡ (some n, rows')))
      → zero_f ≺ engines.severity_speed_ref
      → all_finite (weights (get_engine engines (version_of model))) ≡ true
      → AreNewRuns runs t.fusion_run
      → IsKeyed t.fusion_pair
      → HasNoRepeat (map (λ f. f.client_id) t.asset_frame)
      → (t' : Tables F) × (run_all runs t ≡ some t')
        × (length (waiting t'.asset_frame)
            ≡ length (waiting t.asset_frame) - length runs * cfg.fusion_batch_size)
  run_fusion_job_drains [] t scores ref finite new key distinct = (t, refl, omega arith)
  run_fusion_job_drains (run ∷ runs) t scores ref finite (fresh, later, new) key distinct =
      let (n, rows, scored) = scores run t.asset_observation in
      let (t1, ended, paired) =
        run_fusion_job_done laws precedes distance within to_ms cfg engines run pdf predict model t
          n rows key (fresh, finite) ref scored in
      let frames =
        frames-run_fusion_job precedes distance within to_ms cfg engines run pdf predict model t t1
          n rows scored ended in
      let ids =
        ap (λ fs. map (λ f. f.client_id) fs) frames
        ∙ ids-mark_processed (select_frame_batch precedes cfg.fusion_batch_size t.asset_frame)
            run.now t.asset_frame in
      let (t', all, left) =
        run_fusion_job_drains runs t1 scores ref finite
          (AreNewRuns-run_fusion_job precedes distance within to_ms cfg engines run pdf predict
            model t t1 runs ended later new)
          paired.0 (subst HasNoRepeat (sym ids) distinct) in
      let one =
        ap (λ fs. length (waiting fs)) frames
        ∙ waiting-select_frame_batch precedes cfg.fusion_batch_size run.now t.asset_frame
            distinct in
      (t', run_all_done run runs t t1 ended ∙ all, omega (arith, left, one))
