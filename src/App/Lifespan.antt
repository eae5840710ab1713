-- ===== src/App/Lifespan.antt =====
-- app/main.py, `lifespan`, as a step relation on the process, and what holds in each phase. The two
-- calls after `yield` raise nothing here.
use pothole_detection_server.Prelude.{
  ℕ, ◌≡◌, Bool, true, false, Option, none, some, List, [], ◌∷◌, Text, codes, same, map, All,
}
use pothole_detection_server.Fusion.{filter}
use pothole_detection_server.App.{
  JobFunction, fit_job, fusion_job, cluster_job, Job, SchedulerSettings, Process, Connection,
  create_pool, set_pool, get_pool, close_pool, start_scheduler, stop_scheduler,
}

-- Where `lifespan` stands: before it, after each of its calls, at `yield`, and after an exception.
-- `h` is its variable `pool`.
pub data Phase : Type 0 where
  idle : Phase
  created : ℕ → Phase
  published : ℕ → Phase
  migrated : ℕ → Phase
  serving : Phase
  draining : Phase
  failed : Phase

module _ (cfg : SchedulerSettings) (env : Text) where
  -- One call of `lifespan`; a lifespan that has ended may be followed by another.
  pub data Step : Phase × Process → Phase × Process → Type 0 where
    creates :
        {s t : Process} {h : ℕ} (c : Connection)
        → create_pool c s ≡ (some h, t)
        → Step (idle, s) (created h, t)
    create_fails :
        {s t : Process} (c : Connection) → create_pool c s ≡ (none, t) → Step (idle, s) (failed, t)
    publishes : {s : Process} {h : ℕ} → Step (created h, s) (published h, set_pool h s)
    migrates :
        {s : Process} {h : ℕ}
        → same env (codes "development") ≡ true
        → Step (published h, s) (migrated h, s)
    migration_fails :
        {s : Process} {h : ℕ}
        → same env (codes "development") ≡ true
        → Step (published h, s) (failed, s)
    skips_migrations :
        {s : Process} {h : ℕ}
        → same env (codes "development") ≡ false
        → Step (published h, s) (migrated h, s)
    starts : {s : Process} {h : ℕ} → Step (migrated h, s) (serving, start_scheduler cfg h s)
    stops : {s : Process} → Step (serving, s) (draining, stop_scheduler s)
    closes : {s : Process} → Step (draining, s) (idle, close_pool s)

  pub data Reach (x : Phase × Process) : Phase × Process → Type 0 where
    here : Reach x x
    next : {y z : Phase × Process} → Reach x y → Step y z → Reach x z

-- The process at its start.
abbrev pub fresh_process : Process
fresh_process = record { made = 0; open_pools = []; pool = none; scheduler = none }

abbrev pub jobs_of : Option (List Job) → List Job
jobs_of none = []
jobs_of (some jobs) = jobs

module _ (cfg : SchedulerSettings) where
  -- What the settings say of each kind of job.
  abbrev pub is_enabled : JobFunction → Bool
  is_enabled fit_job = cfg.sensor_fit_enabled
  is_enabled fusion_job = cfg.fusion_enabled
  is_enabled cluster_job = cfg.clustering_enabled

  abbrev pub interval : JobFunction → ℕ
  interval fit_job = cfg.sensor_fit_interval_minutes
  interval fusion_job = cfg.fusion_interval_minutes
  interval cluster_job = cfg.clustering_interval_minutes

  -- The kinds of the scheduled jobs are the enabled ones, each once and with its interval, all on
  -- the pool.
  abbrev pub AreEnabled : ℕ → Option (List Job) → Type 0
  AreEnabled h scheduler =
      (map (λ j. j.function) (jobs_of scheduler)
        ≡ filter is_enabled (fit_job ∷ fusion_job ∷ cluster_job ∷ []))
      × All (λ j. (j.minutes ≡ interval j.function) × (j.pool ≡ h)) (jobs_of scheduler)

  -- `_pool` is the one open pool.
  abbrev pub HasPool : ℕ → Process → Type 0
  HasPool h s = (get_pool s ≡ some h) × (s.open_pools ≡ h ∷ [])

  -- What holds in each phase.
  abbrev pub IsOrderly : Phase × Process → Type 0
  IsOrderly (idle, s) = (s.pool ≡ none) × (s.open_pools ≡ []) × (s.scheduler ≡ none)
  IsOrderly (created h, s) = (s.pool ≡ none) × (s.open_pools ≡ h ∷ []) × (s.scheduler ≡ none)
  IsOrderly (published h, s) = HasPool h s × (s.scheduler ≡ none)
  IsOrderly (migrated h, s) = HasPool h s × (s.scheduler ≡ none)
  IsOrderly (serving, s) = (h : ℕ) × HasPool h s × AreEnabled h s.scheduler
  IsOrderly (draining, s) = (h : ℕ) × HasPool h s × (s.scheduler ≡ none)
  IsOrderly (failed, s) = s.scheduler ≡ none
