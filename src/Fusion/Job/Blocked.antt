-- ===== src/Fusion/Job/Blocked.antt =====
-- An observation that raises in the scorer stops the fusion job, for as long as it waits.
use pothole_detection_server.Prelude.{
  ℕ, ◌≡◌, refl, Bool, false, Option, none, some, List, [], ◌∷◌, ◌++◌, arith, Text, inl, inr, map,
  Option-cases,
}
use pothole_detection_server.Float.{Float}
use pothole_detection_server.Schema.{Observation}
use pothole_detection_server.Engine.{FusionSettings}
use pothole_detection_server.Sensor.{SensorModel, score_observation}
use pothole_detection_server.Fusion.{Tables, JobSettings, select_unscored}
use pothole_detection_server.Fusion.Run.{with_score, score_rows, score_unscored}
use pothole_detection_server.Fusion.Job.{
  JobEnd, raised, RunContext, score_with, fusion_body, run_fusion_job,
}

module _ {F G I : Type 0} ⦃d : Float F⦄ (pdf : List F → List F → List (List F) → Option F)
    (predict : I → List F → Option Bool) (model : SensorModel F G I) where
  -- The scorer raises on the observation.
  abbrev pub IsUnscorable : Observation F → Type 0
  IsUnscorable o =
      score_observation pdf predict model o.magnitude o.accel_std o.gbar_in_max o.speed_mps ≡ none

  score_rows_raises :
      (now : ℕ) (pre post table : List (Observation F)) (o : Observation F)
      → IsUnscorable o
      → score_rows pdf predict model now (pre ++ o ∷ post) table ≡ none
  unfolding score_rows
  score_rows_raises now [] post table o h = rw (score_rows, h)
  score_rows_raises now (r ∷ pre) post table o h =
      elim (Option-cases
        (score_observation pdf predict model r.magnitude r.accel_std r.gbar_in_max r.speed_mps)) [
          | inl failed ↦ rw (score_rows, failed)
          | inr (res, e) ↦
              rw (score_rows, e)
                (score_rows_raises now pre post
                  (map (with_score r.client_id res model.model_version now) table) o h)
        ]

module _ {F G I : Type 0} ⦃d : Float F⦄ (precedes : Text → Text → Bool)
    (distance : F × F → F × F → F) (within : F × F → F × F → F → Bool) (to_ms : ℕ → ℕ → F)
    (cfg : JobSettings F) (engines : FusionSettings F)
    (pdf : List F → List F → List (List F) → Option F) (predict : I → List F → Option Bool)
    (model : SensorModel F G I) where
  -- One run after the other, each with the lock free and the model loaded: how they end, and the
  -- tables.
  abbrev pub run_each : List (RunContext F) → Tables F → List JobEnd × Tables F
  run_each [] t = ([], t)
  run_each (run ∷ runs) t =
      let (end, _, t') =
        run_fusion_job precedes distance within to_ms cfg engines run pdf predict false
          (some (some model)) t in
      let (ends, last) = run_each runs t' in (end ∷ ends, last)

  run_fusion_job_raises :
      (run : RunContext F) (t : Tables F) (pre post : List (Observation F)) (o : Observation F)
      → select_unscored precedes cfg.fusion_batch_size t.asset_observation ≡ pre ++ o ∷ post
      → IsUnscorable pdf predict model o
      → run_fusion_job precedes distance within to_ms cfg engines run pdf predict false
          (some (some model))
          t
        ≡ (raised, false, t)
  unfolding run_fusion_job fusion_body score_with score_unscored
  run_fusion_job_raises run t pre post o batch h =
      let stuck = score_rows_raises pdf predict model run.now pre post t.asset_observation o h in
      ground (arith, batch, stuck)

  -- If the scorer raises on one observation of the batch of unscored ones, then every run of the
  -- fusion job raises and leaves all its tables as they were, however many runs there are and
  -- whatever their clocks: no observation of the batch is scored and no frame is processed by them.
  pub run_fusion_job_blocked :
      (runs : List (RunContext F)) (t : Tables F) (pre post : List (Observation F))
      (o : Observation F)
      → select_unscored precedes cfg.fusion_batch_size t.asset_observation ≡ pre ++ o ∷ post
      → IsUnscorable pdf predict model o
      → run_each runs t ≡ (map (λ r. raised) runs, t)
  run_fusion_job_blocked [] t pre post o batch h = refl
  run_fusion_job_blocked (run ∷ runs) t pre post o batch h = rw (
    run_fusion_job_raises run t pre post o batch h,
    run_fusion_job_blocked runs t pre post o batch h,
  )
