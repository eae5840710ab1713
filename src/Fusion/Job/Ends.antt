-- ===== src/Fusion/Job/Ends.antt =====
-- How the fusion job ends, and what it leaves in the tables.
use pothole_detection_server.Prelude.{
  ℕ, ◌≡◌, ◌≢◌, refl, Bool, true, false, Option, some, List, [], ◌∷◌, arith, Text, ◌⊎◌, inl, inr,
  All, length, ◌++◌,
}
use pothole_detection_server.Float.{Float, zero_f, ◌≺◌}
use pothole_detection_server.Float.Laws.{IsFloat}
use pothole_detection_server.Schema.{Observation, Frame}
use pothole_detection_server.Engine.{Engine, FusionSettings, get_engine}
use pothole_detection_server.Engine.Fuse.{fuse-get_engine}
use pothole_detection_server.Sensor.{SensorModel}
use pothole_detection_server.Fusion.{
  FusionRun, Tables, JobSettings, is_null, any_of, select_frame_batch, pairing,
}
use pothole_detection_server.Fusion.Run.{weights, mark_processed}
use pothole_detection_server.Fusion.Pairs.{IsKeyed, HasRun, fuse_pairs_total}
use pothole_detection_server.Fusion.Job.{
  skipped, done, RunContext, version_of, has_run, all_finite, new_run, insert_run, fused_tables,
  fuse_batch, pair_and_fuse, score_with, fusion_body, run_fusion_job,
}

-- What the row of fusion_run needs: an id that no row has, and weights that JSON can express.
abbrev pub IsNewRun : {F : Type 0} ⦃d : Float F⦄ → Text → Engine F → List (FusionRun F) → Type 0
IsNewRun run_id engine runs = (has_run run_id runs ≡ false) × (all_finite (weights engine) ≡ true)

insert_run_fresh :
    {F : Type 0} ⦃d : Float F⦄ (run_id : Text) (engine : Engine F) (n : ℕ)
    (runs : List (FusionRun F))
    → IsNewRun run_id engine runs
    → (runs' : List (FusionRun F)) × (insert_run run_id engine n runs ≡ some runs')
unfolding insert_run
insert_run_fresh run_id engine n runs (new, finite) =
    (runs ++ new_run run_id engine n ∷ [], ground (arith, new, finite))

-- Every frame whose id is in the batch is processed.
abbrev pub AreProcessed : {F : Type 0} → List Text → List (Frame F) → Type 0
AreProcessed ids = All (λ f. (any_of f.client_id ids ≡ false) ⊎ (is_null f.processed_at ≡ false))

mark_processed-AreProcessed :
    {F : Type 0} (ids : List Text) (now : ℕ) (fs : List (Frame F))
    → AreProcessed ids (mark_processed ids now fs)
unfolding mark_processed
mark_processed-AreProcessed ids now [] = tt
mark_processed-AreProcessed ids now (f ∷ fs) =
    (ground arith, mark_processed-AreProcessed ids now fs)

module _ {F : Type 0} ⦃d : Float F⦄ (precedes : Text → Text → Bool) (distance : F × F → F × F → F)
    (within : F × F → F × F → F → Bool) (cfg : JobSettings F) where
  abbrev pub batch : Tables F → List Text
  batch t = select_frame_batch precedes cfg.fusion_batch_size t.asset_frame

  abbrev pub candidates : Tables F → List (Frame F × Observation F)
  candidates t = pairing precedes distance within cfg (batch t) t.asset_observation t.asset_frame

  -- What a run leaves of the tables.
  abbrev pub IsPaired : Text → Tables F → Tables F → Type 0
  IsPaired run_id t t' =
      IsKeyed t'.fusion_pair
      × All (λ x. HasRun run_id t'.fusion_pair x.1.client_id x.0.client_id) (candidates t)
      × AreProcessed (batch t) t'.asset_frame
      × (t'.asset_observation ≡ t.asset_observation)

  pairing_nothing :
      (rows : List (Observation F)) (fs : List (Frame F))
      → pairing precedes distance within cfg [] rows fs ≡ []
  unfolding pairing any_of
  pairing_nothing rows [] = refl
  pairing_nothing rows (f ∷ fs) = pairing_nothing rows fs

nothing-AreProcessed : {F : Type 0} (fs : List (Frame F)) → AreProcessed [] fs
unfolding any_of
nothing-AreProcessed [] = tt
nothing-AreProcessed (f ∷ fs) = (inl refl, nothing-AreProcessed fs)

module _ {F G I : Type 0} ⦃d : Float F⦄ (laws : IsFloat F) (precedes : Text → Text → Bool)
    (distance : F × F → F × F → F) (within : F × F → F × F → F → Bool) (to_ms : ℕ → ℕ → F)
    (cfg : JobSettings F) (engines : FusionSettings F) (run : RunContext F) where
  fuse_batch_total :
      (model : Option (SensorModel F G I)) (t : Tables F)
      → IsKeyed t.fusion_pair
      → IsNewRun run.run_id (get_engine engines (version_of model)) t.fusion_run
      → zero_f ≺ engines.severity_speed_ref
      → (t' : Tables F) × (fuse_batch precedes distance within to_ms cfg engines run model
            (batch precedes distance within cfg t)
            t
          ≡ (some (length (candidates precedes distance within cfg t)), t'))
        × IsPaired precedes distance within cfg run.run_id t t'
  unfolding fuse_batch fused_tables
  fuse_batch_total model t key fresh ref =
      let engine = get_engine engines (version_of model) in
      let (pairs, e, (keyed, kept, stored)) =
        fuse_pairs_total distance to_ms run.runtime_ms engine run.run_id
          (λ inp.
            let (out, eo, _) =
              fuse-get_engine laws engines (version_of model) run.runtime_ms inp ref in
            (out, eo))
          (candidates precedes distance within cfg t) t.fusion_pair in
      let (runs, added) =
        insert_run_fresh run.run_id engine (length (batch precedes distance within cfg t))
          t.fusion_run fresh in
      (
        fused_tables precedes distance within to_ms cfg engines run model
            (batch precedes distance within cfg t) (candidates precedes distance within cfg t) pairs
            runs t,
        rw (fuse_batch, added, e),
        (
          keyed key,
          stored,
          mark_processed-AreProcessed (batch precedes distance within cfg t) run.now t.asset_frame,
          refl,
        ),
      )

  -- If no pair stands twice in fusion_pair, the reference speed is positive, no row of fusion_run
  -- has the id of the run and the weights of the engine are finite, `_pair_and_fuse` ends without
  -- an exception and returns the number of candidates. No pair stands twice after it; it leaves a
  -- pair of this run for every candidate, processes every frame of the batch, and changes no
  -- observation.
  pub pair_and_fuse_total :
      (model : Option (SensorModel F G I)) (t : Tables F)
      → IsKeyed t.fusion_pair
      → IsNewRun run.run_id (get_engine engines (version_of model)) t.fusion_run
      → zero_f ≺ engines.severity_speed_ref
      → (t' : Tables F) × (pair_and_fuse precedes distance within to_ms cfg engines run model t
          ≡ (some (length (candidates precedes distance within cfg t)), t'))
        × IsPaired precedes distance within cfg run.run_id t t'
  unfolding pair_and_fuse
  pair_and_fuse_total model t key fresh ref = go (batch precedes distance within cfg t) refl
    where
      go :
          (ids : List Text)
          → batch precedes distance within cfg t ≡ ids
          → (t' : Tables F) × (pair_and_fuse precedes distance within to_ms cfg engines run model t
              ≡ (some (length (candidates precedes distance within cfg t)), t'))
            × IsPaired precedes distance within cfg run.run_id t t'
      go [] e = (
        t,
        rw
            (
              pair_and_fuse,
              e,
              pairing_nothing precedes distance within cfg t.asset_observation t.asset_frame,
            )
            refl,
        (
          key,
          rw (e, pairing_nothing precedes distance within cfg t.asset_observation t.asset_frame) tt,
          rw e (nothing-AreProcessed t.asset_frame),
          refl,
        ),
      )
      go (id ∷ ids) e =
          let (t', ended, paired) = fuse_batch_total model t key fresh ref in
          (t', rw (pair_and_fuse, e) (rw e at ended), paired)

  module _ (pdf : List F → List F → List (List F) → Option F)
      (predict : I → List F → Option Bool) where
    pub run_fusion_job_rolls_back :
        (held : Bool) (load : Option (Option (SensorModel F G I))) (t : Tables F)
        → let (end, held', t') =
            run_fusion_job precedes distance within to_ms cfg engines run pdf predict held load t in
          (held' ≡ held)
          × ((end ≡ done)
              ⊎ ((t'.asset_frame ≡ t.asset_frame)
                  × (t'.fusion_pair ≡ t.fusion_pair)
                  × (t'.fusion_run ≡ t.fusion_run)))
          × ((end ≢ skipped) ⊎ (t' ≡ t))
    unfolding run_fusion_job fusion_body pair_and_fuse fuse_batch
    run_fusion_job_rolls_back true load t = (refl, inr (refl, refl, refl), inr refl)
    run_fusion_job_rolls_back false load t = (refl, ground arith, ground arith)

    pub run_fusion_job_done :
        (model : Option (SensorModel F G I)) (t : Tables F) (n : ℕ) (rows : List (Observation F))
        → IsKeyed t.fusion_pair
        → IsNewRun run.run_id (get_engine engines (version_of model)) t.fusion_run
        → zero_f ≺ engines.severity_speed_ref
        → score_with precedes distance within to_ms cfg engines run pdf predict model
            t.asset_observation
          ≡ (some n, rows)
        → (t' : Tables F) × (run_fusion_job precedes distance within to_ms cfg engines run pdf
              predict false
              (some model)
              t
            ≡ (done, false, t'))
          × IsPaired precedes distance within cfg run.run_id
              (record t { asset_observation = rows })
              t'
    unfolding run_fusion_job fusion_body
    run_fusion_job_done model t n rows key fresh ref scored =
        let (t', e, paired) =
          pair_and_fuse_total model (record t { asset_observation = rows }) key fresh ref in
        (t', ground (arith, scored, e), paired)
