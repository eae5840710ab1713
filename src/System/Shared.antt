-- ===== src/System/Shared.antt =====
-- The data that the worker processes share, and what the server is built on: the settings, and the
-- code that is not its own.
use pothole_detection_server.Events.{Refusal}
use pothole_detection_server.Prelude.{ℕ, Bool, Option, List, Text}
use pothole_detection_server.Float.{Float}
use pothole_detection_server.Json.{Json}
use pothole_detection_server.Schema.{DateTime, Observation, Frame}
use pothole_detection_server.Engine.{FusionSettings}
use pothole_detection_server.Files.{Bytes}
use pothole_detection_server.Frames.{FrameStore}
use pothole_detection_server.Routes.{Settings, MetadataPart}
use pothole_detection_server.Sensor.{SensorModel}
use pothole_detection_server.Sensor.Fit.{Toolkit}
use pothole_detection_server.Sensor.Store.{ModelRow}
use pothole_detection_server.Fusion.{FusionPair, FusionRun, Tables, JobSettings}
use pothole_detection_server.Fusion.Job.{
  RunContext, score_with, pair_and_fuse, run_fusion_job, JobEnd,
}
use pothole_detection_server.FitJob.{FitSettings}
use pothole_detection_server.Cluster.{ClusterTables, ClusterSettings, Database}
use pothole_detection_server.Cluster.Members.{Evidence}

-- The database, with the files of the frames.
pub record Data (F R : Type 0) : Type 0 where
  pub asset_observation : List (Observation F)
  pub frames : FrameStore F R
  pub fusion_pair : List (FusionPair F)
  pub fusion_run : List (FusionRun F)
  pub sensor_model : List (ModelRow F)
  pub clusters : ClusterTables F

module _ {F R : Type 0} where
  -- The tables of the fusion job, and the data after it.
  abbrev pub tables_of : Data F R → Tables F
  tables_of x = record {
    asset_observation = x.asset_observation;
    asset_frame = x.frames.asset_frame;
    fusion_pair = x.fusion_pair;
    fusion_run = x.fusion_run;
  }

  abbrev pub with_tables : Tables F → Data F R → Data F R
  with_tables t x = record x {
    asset_observation = t.asset_observation;
    frames = record x.frames { asset_frame = t.asset_frame };
    fusion_pair = t.fusion_pair;
    fusion_run = t.fusion_run;
  }

  -- What a query of the clustering job reads at `now`.
  abbrev pub evidence_at : ℕ → Data F R → Evidence F
  evidence_at now x = record {
    now = now;
    asset_observation = x.asset_observation;
    fusion_pair = x.fusion_pair;
  }

-- The settings and the other code that the handlers and the jobs call, as their sections name it.
pub record Outside (F G I J R : Type 0) : Type 0 where
  pub settings : Settings
  pub fromisoformat : Text → Option DateTime
  pub refuses : List (Observation F) → Observation F → Option Refusal
  pub dumps : List J → Text
  pub loads : Bytes → MetadataPart F J
  pub upload : Text → Bytes → R → Option R
  pub frame_refuses : Frame F → Bool
  pub transport : Json F → Option (Json F)
  pub unpickle : Text → Option (G × I)
  pub kit : Toolkit F G I
  pub fit_cfg : FitSettings F
  pub pdf : List F → List F → List (List F) → Option F
  pub predict : I → List F → Option Bool
  pub precedes : Text → Text → Bool
  pub distance : F × F → F × F → F
  pub within : F × F → F × F → F → Bool
  pub to_ms : ℕ → ℕ → F
  pub fusion_cfg : JobSettings F
  pub engines : FusionSettings F
  pub db : Database F
  pub cos_radians : F → F
  pub cluster_cfg : ClusterSettings F

module _ {F G I J R : Type 0} ⦃d : Float F⦄ (env : Outside F G I J R) (run : RunContext F) where
  abbrev pub env_score :
      Option (SensorModel F G I) → List (Observation F) → Option ℕ × List (Observation F)
  env_score =
      score_with env.precedes env.distance env.within env.to_ms env.fusion_cfg env.engines run
        env.pdf env.predict

  abbrev pub env_pair : Option (SensorModel F G I) → Tables F → Option ℕ × Tables F
  env_pair =
      pair_and_fuse env.precedes env.distance env.within env.to_ms env.fusion_cfg env.engines run

  abbrev pub env_fusion :
      Bool → Option (Option (SensorModel F G I)) → Tables F → JobEnd × Bool × Tables F
  env_fusion =
      run_fusion_job env.precedes env.distance env.within env.to_ms env.fusion_cfg env.engines run
        env.pdf env.predict
