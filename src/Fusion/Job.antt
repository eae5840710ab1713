-- ===== src/Fusion/Job.antt =====
-- app/fusion/service.py, `_pair_and_fuse` and `run_fusion_job`.
pub mod Ends
pub mod Drain
pub mod Keeps
pub mod Blocked
use pothole_detection_server.Prelude.{
  ℕ, Bool, true, false, not, ◌&&◌, ◌||◌, Option, none, some, List, [], ◌∷◌, ◌++◌, if◌then◌else◌,
  Text, same, length, map,
}
use pothole_detection_server.Float.{Float}
use pothole_detection_server.Schema.{Observation, Frame}
use pothole_detection_server.Engine.{Engine, FusionSettings, get_engine}
use pothole_detection_server.Sensor.{SensorModel}
use pothole_detection_server.Fusion.{
  FusionPair, FusionRun, RunMetrics, Tables, JobSettings, select_frame_batch, pairing,
}
use pothole_detection_server.Fusion.Run.{
  version, weights, mark_processed, score_unscored, fuse_pairs,
}

module _ {F : Type 0} where
  -- The PRIMARY KEY of fusion_run: is the id there?
  unfoldable pub has_run : Text → List (FusionRun F) → Bool
  has_run run_id [] = false
  has_run run_id (r ∷ runs) = same r.run_id run_id || has_run run_id runs

  -- `json.dumps` writes NaN and the infinities as tokens that the cast to JSONB refuses.
  unfoldable pub all_finite : ⦃d : Float F⦄ → List (Text × F) → Bool
  all_finite [] = true
  all_finite ⦃d⦄ ((k, x) ∷ ws) = d.is_finite x && all_finite ws

  abbrev pub new_run : Text → Engine F → ℕ → FusionRun F
  new_run run_id engine inputs = record {
    run_id = run_id;
    engine_version = version engine;
    weights_jsonb = weights engine;
    inputs_count = inputs;
    completed_at = none;
    outputs_count = none;
    metrics_jsonb = none;
  }

  -- `_INSERT_RUN_SQL`; `none` is a UniqueViolation, or a refusal by the cast.
  unfoldable pub insert_run :
      ⦃d : Float F⦄ → Text → Engine F → ℕ → List (FusionRun F) → Option (List (FusionRun F))
  unfolding has_run all_finite
  insert_run run_id engine inputs runs =
      if has_run run_id runs || not (all_finite (weights engine))
      then none
      else some (runs ++ new_run run_id engine inputs ∷ [])

  -- `_UPDATE_RUN_SQL`

  unfoldable pub update_run : Text → ℕ → ℕ → RunMetrics → List (FusionRun F) → List (FusionRun F)
  update_run run_id now outputs metrics = map (λ r.
      if same r.run_id run_id
      then record r {
        completed_at = some now;
        outputs_count = some outputs;
        metrics_jsonb = some metrics;
      }
      else r)

-- `model.model_version if model else None`
abbrev pub version_of : {F G I : Type 0} → Option (SensorModel F G I) → Option Text
version_of none = none
version_of (some m) = some m.model_version

-- How a job ends: another run holds the lock, an exception, or its end.
pub data JobEnd : Type 0 where
  skipped : JobEnd
  raised : JobEnd
  done : JobEnd

-- What a run gets from outside: the clock of the database, a fresh id and the measured time.
pub record RunContext (F : Type 0) : Type 0 where
  pub now : ℕ
  pub run_id : Text
  pub runtime_ms : F

module _ {F G I : Type 0} ⦃d : Float F⦄ (precedes : Text → Text → Bool)
    (distance : F × F → F × F → F) (within : F × F → F × F → F → Bool) (to_ms : ℕ → ℕ → F)
    (cfg : JobSettings F) (engines : FusionSettings F) (run : RunContext F) where
  -- What the transaction writes, given the batch, the candidates, the pairs and the
  -- table fusion_run with its new row.
  pub fused_tables :
      Option (SensorModel F G I)
      → List Text
      → List (Frame F × Observation F)
      → List (FusionPair F)
      → List (FusionRun F)
      → Tables F
      → Tables F
  unfolding update_run
  fused_tables model ids candidates pairs runs t =
      let model_version = version_of model in
      record t {
        fusion_pair = pairs;
        asset_frame = mark_processed ids run.now t.asset_frame;
        fusion_run =
            update_run run.run_id run.now (length candidates)
              (record {
                frames = length ids;
                pairs = length candidates;
                sensor_model_version = model_version;
              })
              runs;
      }

  -- The transaction of `_pair_and_fuse` on the ids of the batch: the number of pairs, or `none` for
  -- an exception, which rolls all back.
  pub fuse_batch : Option (SensorModel F G I) → List Text → Tables F → Option ℕ × Tables F
  unfolding fused_tables insert_run
  fuse_batch model ids t =
      let engine = get_engine engines (version_of model) in
      let candidates = pairing precedes distance within cfg ids t.asset_observation t.asset_frame in
      elim (insert_run run.run_id engine (length ids) t.fusion_run) [
        | none ↦ (none, t)
        | some runs ↦
            elim (fuse_pairs distance to_ms run.runtime_ms engine run.run_id candidates
              t.fusion_pair) [
                | none ↦ (none, t)
                | some pairs ↦
                    (some (length candidates), fused_tables model ids candidates pairs runs t)
              ]
      ]

  -- `_pair_and_fuse`, which does nothing where no frame waits.
  pub pair_and_fuse : Option (SensorModel F G I) → Tables F → Option ℕ × Tables F
  unfolding fuse_batch
  pair_and_fuse model t = elim (select_frame_batch precedes cfg.fusion_batch_size t.asset_frame) [
    | [] ↦ (some 0, t)
    | id ∷ ids ↦ fuse_batch model (id ∷ ids) t
  ]

  module _ (pdf : List F → List F → List (List F) → Option F)
      (predict : I → List F → Option Bool) where
    -- `if model is not None: await _score_unscored(conn, model)`
    unfoldable pub score_with :
        Option (SensorModel F G I) → List (Observation F) → Option ℕ × List (Observation F)
    score_with none rows = (some 0, rows)
    score_with (some m) rows =
        score_unscored pdf predict m run.now precedes cfg.fusion_batch_size rows

    -- The body of `run_fusion_job` under the lock; `load` is what `load_active_model` gives, `none`
    -- for an exception.
    unfoldable pub fusion_body : Option (Option (SensorModel F G I)) → Tables F → JobEnd × Tables F
    unfolding pair_and_fuse score_with
    fusion_body load t = elim load [
      | none ↦ (raised, t)
      | some model ↦
          let (scored, rows) = score_with model t.asset_observation in
          let t' = record t { asset_observation = rows } in
          elim scored [
            | none ↦ (raised, t')
            | some _ ↦
                let (n, t'') = pair_and_fuse model t' in
                (elim n [ none ↦ raised | some _ ↦ done ], t'')
          ]
    ]

    -- `run_fusion_job`: how it ends, whether the lock is held after it, and the tables.
    unfoldable pub run_fusion_job :
        Bool → Option (Option (SensorModel F G I)) → Tables F → JobEnd × Bool × Tables F
    unfolding fusion_body
    run_fusion_job held load t =
        if held
        then (skipped, held, t)
        else (let (end, t') = fusion_body load t in (end, false, t'))
