-- ===== src/App.antt =====
-- app/database.py and app/fusion/scheduler.py: the connection pool and the scheduler of the
-- process.
pub mod Lifespan
pub mod Orderly
pub mod Health
pub mod Cors
mod Examples
use pothole_detection_server.Prelude.{
  ℕ, ◌+◌, Bool, true, false, not, ◌||◌, Option, none, some, List, [], ◌∷◌, ◌++◌, if◌then◌else◌,
  Text, codes, ◌==◌, map,
}
use pothole_detection_server.Fusion.{filter, sort_by}

-- The coroutine that a job runs.
pub data JobFunction : Type 0 where
  fit_job fusion_job cluster_job : JobFunction

-- A job of the scheduler; `pool` is its argument.
pub record Job : Type 0 where
  pub id : Text
  pub function : JobFunction
  pub minutes : ℕ
  pub pool : ℕ
  pub max_instances : ℕ
  pub coalesce : Bool
  pub misfire_grace_time : ℕ

-- The settings of config.py that the scheduler reads.
pub record SchedulerSettings : Type 0 where
  pub fusion_enabled : Bool
  pub fusion_interval_minutes : ℕ
  pub sensor_fit_enabled : Bool
  pub sensor_fit_interval_minutes : ℕ
  pub clustering_enabled : Bool
  pub clustering_interval_minutes : ℕ

-- The process: the pools that are open, `_pool` of database.py, and `_scheduler` with its jobs. A
-- pool is named by the number of the pools that were made before it.
pub record Process : Type 0 where
  pub made : ℕ
  pub open_pools : List ℕ
  pub pool : Option ℕ
  pub scheduler : Option (List Job)

-- What becomes of a connection: it is refused, it is made and then fails at `SELECT 1`, or it
-- works.
pub data Connection : Type 0 where
  refused dead alive : Connection

-- `create_pool`: the pool, or `none` for an exception.
pub create_pool : Connection → Process → Option ℕ × Process
create_pool refused s = (none, s)
create_pool dead s = (none, record s { made = s.made + 1; open_pools = s.made ∷ s.open_pools })
create_pool alive s =
    (some s.made, record s { made = s.made + 1; open_pools = s.made ∷ s.open_pools })

pub set_pool : ℕ → Process → Process
set_pool h s = record s { pool = some h }

-- `get_pool`, where `none` is the RuntimeError
unfoldable pub get_pool : Process → Option ℕ
get_pool s = s.pool

-- `close_pool`
pub close_pool : Process → Process
close_pool s = elim s.pool [
  | none ↦ s
  | some h ↦ record s { pool = none; open_pools = filter (λ g. not (g == h)) s.open_pools }
]

-- `run_migrations`: whether the directory is there, its files with their contents, and what an
-- `execute` does to the database, where `none` is an exception; `precedes` is the order of paths.
module _ {D : Type 0} (precedes : Text → Text → Bool) (execute : Text → D → Option D) where
  unfoldable pub apply_all : List (Text × Text) → D → Bool × D
  apply_all [] db = (true, db)
  apply_all ((path, sql) ∷ files) db = elim (execute sql db) [
    | none ↦ (false, db)
    | some db' ↦ apply_all files db'
  ]

  unfoldable pub run_migrations : Bool → List (Text × Text) → D → Bool × D
  unfolding apply_all
  run_migrations there files db =
      if there then apply_all (sort_by (λ f g. precedes f.0 g.0) files) db else (true, db)

module _ (cfg : SchedulerSettings) where
  -- The three calls of `add_job`.
  unfoldable pub fit_jobs : ℕ → List Job
  fit_jobs h =
      if cfg.sensor_fit_enabled
      then record {
        id = codes "sensor_fit";
        function = fit_job;
        minutes = cfg.sensor_fit_interval_minutes;
        pool = h;
        max_instances = 1;
        coalesce = true;
        misfire_grace_time = 120;
      }
        ∷ []
      else []

  unfoldable pub fusion_jobs : ℕ → List Job
  fusion_jobs h =
      if cfg.fusion_enabled
      then record {
        id = codes "fusion";
        function = fusion_job;
        minutes = cfg.fusion_interval_minutes;
        pool = h;
        max_instances = 1;
        coalesce = true;
        misfire_grace_time = 60;
      }
        ∷ []
      else []

  unfoldable pub cluster_jobs : ℕ → List Job
  cluster_jobs h =
      if cfg.clustering_enabled
      then record {
        id = codes "cluster";
        function = cluster_job;
        minutes = cfg.clustering_interval_minutes;
        pool = h;
        max_instances = 1;
        coalesce = true;
        misfire_grace_time = 120;
      }
        ∷ []
      else []

  -- `start_scheduler`
  pub start_scheduler : ℕ → Process → Process
  unfolding fit_jobs fusion_jobs cluster_jobs
  start_scheduler h s = elim s.scheduler [
    | some jobs ↦ s
    | none ↦
        if not (cfg.fusion_enabled || (cfg.sensor_fit_enabled || cfg.clustering_enabled))
        then s
        else record s { scheduler = some (fit_jobs h ++ (fusion_jobs h ++ cluster_jobs h)) }
  ]

-- `stop_scheduler`
pub stop_scheduler : Process → Process
stop_scheduler s = elim s.scheduler [ none ↦ s | some jobs ↦ record s { scheduler = none } ]
