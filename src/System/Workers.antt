-- ===== src/System/Workers.antt =====
-- The worker processes, each with its own limiter and its own scheduler (app/main.py,
-- app/fusion/scheduler.py), and the advisory locks of app/fusion/service.py.
use pothole_detection_server.Prelude.{ℕ, Option, none, some, List, [], ◌==◌, if◌then◌else◌}
use pothole_detection_server.RateLimit.{Limiter}
use pothole_detection_server.Routes.{Server}
use pothole_detection_server.Schema.{Observation}
use pothole_detection_server.Sensor.{SensorModel}
use pothole_detection_server.Cluster.Members.{Evidence}
use pothole_detection_server.System.Shared.{Data, evidence_at}

-- How far a worker is in `run_fusion_job`: outside, with the lock, with the model loaded, and with
-- the observations scored.
pub data FusionPhase (F G I : Type 0) : Type 0 where
  fusion_idle fusion_locked : FusionPhase F G I
  model_loaded scored : Option (SensorModel F G I) → FusionPhase F G I

-- How far a worker is in `run_cluster_job`: outside, with the lock, and after the first query.
pub data ClusterPhase (F : Type 0) : Type 0 where
  cluster_idle cluster_locked : ClusterPhase F
  members_counted : Evidence F → ClusterPhase F

-- A worker process: its limiter and its jobs. `fit` is asset_observation at the count of a fit job
-- that runs.
pub record Worker (F G I : Type 0) : Type 0 where
  pub limiter : Limiter
  pub fusion : FusionPhase F G I
  pub cluster : ClusterPhase F
  pub fit : Option (List (Observation F))

-- The workers, the data that they share, and which worker holds which advisory lock.
pub record System (F G I R : Type 0) : Type 0 where
  pub workers : ℕ → Worker F G I
  pub data_of : Data F R
  pub fusion_lock : Option ℕ
  pub cluster_lock : Option ℕ

module _ {F G I : Type 0} where
  abbrev pub fresh_worker : Worker F G I
  fresh_worker = record {
    limiter = record { event_buckets = []; frame_buckets = [] };
    fusion = fusion_idle;
    cluster = cluster_idle;
    fit = none;
  }

  -- The workers after worker `w` has become `x`.
  unfoldable pub set_worker : ℕ → Worker F G I → (ℕ → Worker F G I) → ℕ → Worker F G I
  set_worker w x workers v = if v == w then x else workers v

-- The lock of a session that ends is released.
unfoldable pub release : ℕ → Option ℕ → Option ℕ
release w none = none
release w (some v) = if v == w then none else some v

module _ {F G I R : Type 0} where
  -- What the endpoints see at worker `w`, and the system after them.
  unfoldable pub server_at : ℕ → System F G I R → Server F R
  server_at w s = record {
    limiter = (s.workers w).limiter;
    asset_observation = s.data_of.asset_observation;
    frames = s.data_of.frames;
  }

  unfoldable pub put_server : ℕ → Server F R → System F G I R → System F G I R
  unfolding set_worker
  put_server w server s = record s {
    workers = set_worker w (record (s.workers w) { limiter = server.limiter }) s.workers;
    data_of = record s.data_of {
      asset_observation = server.asset_observation;
      frames = server.frames;
    };
  }

  unfoldable pub enter_fusion : ℕ → FusionPhase F G I → System F G I R → System F G I R
  unfolding set_worker
  enter_fusion w phase s = record s {
    workers = set_worker w (record (s.workers w) { fusion = phase }) s.workers;
  }

  -- `pg_advisory_unlock`
  unfoldable pub end_fusion : ℕ → System F G I R → System F G I R
  unfolding enter_fusion
  end_fusion w s = record (enter_fusion w fusion_idle s) { fusion_lock = none }

  unfoldable pub enter_cluster : ℕ → ClusterPhase F → System F G I R → System F G I R
  unfolding set_worker
  enter_cluster w phase s = record s {
    workers = set_worker w (record (s.workers w) { cluster = phase }) s.workers;
  }

  unfoldable pub end_cluster : ℕ → System F G I R → System F G I R
  unfolding enter_cluster
  end_cluster w s = record (enter_cluster w cluster_idle s) { cluster_lock = none }

  unfoldable pub enter_fit : ℕ → Option (List (Observation F)) → System F G I R → System F G I R
  unfolding set_worker
  enter_fit w fit s = record s {
    workers = set_worker w (record (s.workers w) { fit = fit }) s.workers;
  }

  -- `pg_try_advisory_lock`: a run that finds the lock taken is skipped.
  unfoldable pub start_fusion : ℕ → System F G I R → System F G I R
  unfolding enter_fusion
  start_fusion w s = elim s.fusion_lock [
    | some v ↦ s
    | none ↦ record (enter_fusion w fusion_locked s) { fusion_lock = some w }
  ]

  unfoldable pub start_clustering : ℕ → System F G I R → System F G I R
  unfolding enter_cluster
  start_clustering w s = elim s.cluster_lock [
    | some v ↦ s
    | none ↦ record (enter_cluster w cluster_locked s) { cluster_lock = some w }
  ]

  unfoldable pub restart : ℕ → System F G I R → System F G I R
  unfolding set_worker release
  restart w s = record s {
    workers = set_worker w fresh_worker s.workers;
    fusion_lock = release w s.fusion_lock;
    cluster_lock = release w s.cluster_lock;
  }

  -- The first query of a clustering job.
  unfoldable pub count_members : ℕ → ℕ → System F G I R → System F G I R
  unfolding enter_cluster
  count_members w now s = elim (s.workers w).cluster [
    | cluster_idle ↦ s
    | cluster_locked ↦ enter_cluster w (members_counted (evidence_at now s.data_of)) s
    | members_counted e ↦ s
  ]
