-- ===== src/Fusion/Run.antt =====
-- app/fusion/service.py, `_score_unscored`, `_pair_and_fuse` and `run_fusion_job`. An error of the
-- database itself is left out: it rolls back the transaction as an exception of the code does.
use pothole_detection_server.Prelude.{
  ℕ, Bool, ◌&&◌, Option, none, some, List, [], ◌∷◌, if◌then◌else◌, Text, codes, same, length, map,
}
use pothole_detection_server.Float.{Float}
use pothole_detection_server.Schema.{Observation, Frame}
use pothole_detection_server.Engine.{
  MatlabPortV1Engine, PythonV1Engine, Engine, matlab, python, matlab_v1, python_v1, FusionInput,
  FusionOutput, fuse,
}
use pothole_detection_server.Sensor.{SensorModel, ScoreResult, score_observation}
use pothole_detection_server.Fusion.{FusionPair, is_null, any_of, select_unscored}

module _ {F : Type 0} where
  -- `version` and `weights()` of the engines
  unfoldable pub version : Engine F → Text
  version (matlab e) = matlab_v1
  version (python e) = python_v1

  abbrev matlab_weights : MatlabPortV1Engine F → List (Text × F)
  matlab_weights e = (codes "w_s", e.w_s) ∷ (codes "w_v", e.w_v) ∷ []

  abbrev python_weights : PythonV1Engine F → List (Text × F)
  python_weights e =
      (codes "w_s", e.w_s)
      ∷ (codes "w_v", e.w_v)
      ∷ (codes "ratio_mean", e.ratio_mean)
      ∷ (codes "ratio_std", e.ratio_std)
      ∷ []

  unfoldable pub weights : Engine F → List (Text × F)
  weights (matlab e) = matlab_weights e
  weights (python e) = python_weights e

  abbrev pub same_pair : FusionPair F → Text → Text → Bool
  same_pair p event frame = same p.event_client_id event && same p.frame_client_id frame

  -- `_UPSERT_PAIR_SQL`
  unfoldable pub upsert_pair : FusionPair F → List (FusionPair F) → List (FusionPair F)
  upsert_pair p [] = p ∷ []
  upsert_pair p (q ∷ qs) =
      let rest = upsert_pair p qs in
      if same_pair q p.event_client_id p.frame_client_id then p ∷ qs else q ∷ rest

  -- `_MARK_PROCESSED_SQL`
  abbrev pub mark : List Text → ℕ → Frame F → Frame F
  mark ids now f =
      if any_of f.client_id ids && is_null f.processed_at
      then record f { processed_at = some now }
      else f

  unfoldable pub mark_processed : List Text → ℕ → List (Frame F) → List (Frame F)
  mark_processed ids now = map (mark ids now)

  -- `_UPDATE_SCORED_SQL`
  abbrev pub with_score : Text → ScoreResult F → Text → ℕ → Observation F → Observation F
  with_score id r version now o =
      if same o.client_id id
      then record o {
        sensor_class = some r.sensor_class;
        sensor_p_pothole = some r.p_pothole;
        sensor_severity = some r.severity;
        sensor_is_outlier = some r.is_outlier;
        sensor_model_version = some version;
        scored_at = some now;
      }
      else o

  module _ {G I : Type 0} ⦃d : Float F⦄ (pdf : List F → List F → List (List F) → Option F)
      (predict : I → List F → Option Bool) (model : SensorModel F G I) (now : ℕ) where
    -- The loop of `_score_unscored`; `none` is an exception.
    unfoldable pub score_rows :
        List (Observation F) → List (Observation F) → Option (List (Observation F))
    score_rows [] table = some table
    score_rows (r ∷ rs) table =
        elim (score_observation pdf predict model r.magnitude r.accel_std r.gbar_in_max
          r.speed_mps) [
            | none ↦ none
            | some res ↦
                score_rows rs (map (with_score r.client_id res model.model_version now) table)
          ]

    -- Its transaction: the number of rows, or `none` for an exception, which rolls it back.
    unfoldable pub score_unscored :
        (Text → Text → Bool) → ℕ → List (Observation F) → Option ℕ × List (Observation F)
    unfolding score_rows
    score_unscored precedes limit table =
        let rows = select_unscored precedes limit table in
        elim (score_rows rows table) [
          | none ↦ (none, table)
          | some table' ↦ (some (length rows), table')
        ]

  -- `to_ms` is the difference of two instants in whole milliseconds, as the database rounds it.
  module _ ⦃d : Float F⦄ (distance : F × F → F × F → F) (to_ms : ℕ → ℕ → F) where
    pub fusion_input : Frame F → Observation F → FusionInput F
    fusion_input f o = record {
      magnitude = o.magnitude;
      accel_std = o.accel_std;
      gbar_in_max = o.gbar_in_max;
      speed_mps = o.speed_mps;
      sensor_p_pothole = o.sensor_p_pothole;
      sensor_severity = o.sensor_severity;
      visual_confidence = f.device_probability;
      delta_ms = to_ms f.ts_utc o.ts_utc;
      delta_m = distance f.geom o.geom;
    }

    unfoldable pub fused_pair : Text → Frame F → Observation F → FusionOutput F → FusionPair F
    fused_pair run_id f o out = record {
      event_client_id = o.client_id;
      frame_client_id = f.client_id;
      fused_confidence = out.fused_confidence;
      severity = out.severity;
      delta_ms = to_ms f.ts_utc o.ts_utc;
      delta_m = distance f.geom o.geom;
      fusion_run_id = run_id;
    }

    -- The loop over the candidates; `none` is an exception of the engine.
    unfoldable pub fuse_pairs :
        F
        → Engine F
        → Text
        → List (Frame F × Observation F)
        → List (FusionPair F)
        → Option (List (FusionPair F))
    unfolding fused_pair fusion_input
    fuse_pairs runtime_ms engine run_id [] pairs = some pairs
    fuse_pairs runtime_ms engine run_id ((f, o) ∷ candidates) pairs =
        elim (fuse engine runtime_ms (fusion_input f o)) [
          | none ↦ none
          | some out ↦
              fuse_pairs runtime_ms engine run_id candidates
                (upsert_pair (fused_pair run_id f o out) pairs)
        ]
