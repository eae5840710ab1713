-- ===== src/System.antt =====
-- The deployed server: the worker processes of the Dockerfile over one database, and the jobs of
-- app/fusion/service.py in the transactions that they consist of.
mod Shared
mod Workers
pub mod Evolves
mod Turns
pub mod Sound
mod Locks
mod Exclusive
mod View
mod Whole
mod Phase
mod Release
pub mod Pairing
pub mod Durable
pub mod Samples
mod Examples
pub use Shared.*
unfoldable pub use Workers.*
use pothole_detection_server.Prelude.{
  ℕ, Bool, Option, none, some, List, [], ◌∷◌, if◌then◌else◌, Text,
}
use pothole_detection_server.Float.{Float}
use pothole_detection_server.Events.{EventPayload, validate_batch}
use pothole_detection_server.Files.{Bytes, Disk}
use pothole_detection_server.Routes.{Clock, post_events, post_frames}
use pothole_detection_server.Sensor.Store.Table.{load_active_model}
use pothole_detection_server.Fusion.Job.{RunContext}
use pothole_detection_server.FitJob.{run_fit_job}
use pothole_detection_server.Cluster.Job.{cluster_body}

-- What happens, and at which worker: a request, the tick of a job, the next transaction of a job
-- that runs, and the end of a process, after which a new one takes its place.
pub data Move (F J : Type 0) : Type 0 where
  sends_events : ℕ → Clock → Option Text → Option Text → List (EventPayload F) → Move F J
  sends_frame : ℕ → Clock → Disk → Option Text → Option Text → Bytes → Bytes → Move F J
  starts_fusion : ℕ → Move F J
  runs_fusion : ℕ → RunContext F → Move F J
  starts_fit : ℕ → Move F J
  runs_fit : ℕ → Text → Move F J
  starts_clustering : ℕ → Move F J
  counts : ℕ → ℕ → Move F J
  clusters : ℕ → Text → ℕ → ℕ → (ℕ → Text) → Move F J
  restarts : ℕ → Move F J

module _ {F G I J R : Type 0} ⦃d : Float F⦄ (env : Outside F G I J R) where
  -- The next transaction of `run_fusion_job` at a worker that is in it.
  pub run_fusion : ℕ → RunContext F → System F G I R → System F G I R
  unfolding enter_fusion end_fusion
  run_fusion w run s = elim (s.workers w).fusion [
    | fusion_idle ↦ s
    | fusion_locked ↦ elim (load_active_model env.unpickle s.data_of.sensor_model) [
      | none ↦ end_fusion w s
      | some model ↦ enter_fusion w (model_loaded model) s
    ]
    | model_loaded model ↦
        let (n, rows) = env_score env run model s.data_of.asset_observation in
        let s' = record s { data_of = record s.data_of { asset_observation = rows } } in
        elim n [ none ↦ end_fusion w s' | some _ ↦ enter_fusion w (scored model) s' ]
    | scored model ↦
        let (n, t) = env_pair env run model (tables_of s.data_of) in
        end_fusion w (record s { data_of = with_tables t s.data_of })
  ]

  -- The rest of a fit job that has counted, with `hex` for the id of the version.
  pub run_fit : ℕ → Text → System F G I R → System F G I R
  unfolding enter_fit
  run_fit w hex s = elim (s.workers w).fit [
    | none ↦ s
    | some counted ↦
        let (end, rows) =
          run_fit_job env.transport env.unpickle env.kit env.fit_cfg hex counted
            s.data_of.asset_observation s.data_of.sensor_model in
        enter_fit w none (record s { data_of = record s.data_of { sensor_model = rows } })
  ]

  -- The rest of a clustering job that has counted: the second query at `at`, and the transaction at
  -- `now`.
  pub run_clustering : ℕ → Text → ℕ → ℕ → (ℕ → Text) → System F G I R → System F G I R
  unfolding end_cluster
  run_clustering w run_id at now uuid s = elim (s.workers w).cluster [
    | cluster_idle ↦ s
    | cluster_locked ↦ s
    | members_counted e ↦
        let (end, t) =
          cluster_body env.db env.cos_radians env.cluster_cfg run_id now uuid e
            (evidence_at at s.data_of) s.data_of.clusters in
        end_cluster w (record s { data_of = record s.data_of { clusters = t } })
  ]

  pub step : Move F J → System F G I R → System F G I R
  unfolding server_at put_server start_fusion start_clustering restart run_fusion run_fit
      count_members run_clustering
  step (sends_events w clock x v events) s =
      if validate_batch env.fromisoformat events
      then (let (answer, server) =
            post_events env.fromisoformat env.refuses env.settings clock x v events
              (server_at w s) in
          put_server w server s)
      else s
  step (sends_frame w clock disk x v metadata jpeg) s =
      let (answer, server) =
        post_frames env.fromisoformat env.dumps env.loads env.upload env.frame_refuses env.settings
          clock disk x v metadata jpeg (server_at w s) in
      put_server w server s
  step (starts_fusion w) s = start_fusion w s
  step (runs_fusion w run) s = run_fusion w run s
  step (starts_fit w) s = elim (s.workers w).fit [
    | none ↦ enter_fit w (some s.data_of.asset_observation) s
    | some counted ↦ s
  ]
  step (runs_fit w hex) s = run_fit w hex s
  step (starts_clustering w) s = start_clustering w s
  step (counts w now) s = count_members w now s
  step (clusters w run_id at now uuid) s = run_clustering w run_id at now uuid s
  step (restarts w) s = restart w s

  -- What happens from the left to the right.
  pub run_moves : List (Move F J) → System F G I R → System F G I R
  run_moves [] s = s
  run_moves (m ∷ ms) s = run_moves ms (step m s)
