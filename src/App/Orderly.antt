-- ===== src/App/Orderly.antt =====
-- Whatever fails at the start of a lifespan, a scheduled job finds its pool open.
use pothole_detection_server.Prelude.{
  ℕ, ◌≡◌, ◌∙◌, refl, Bool, true, false, ◌||◌, ◌==◌, none, some, List, [], ◌∷◌, arith, Text, inl,
  inr, All, Bool-cases,
}
use pothole_detection_server.Fusion.{filter}
use pothole_detection_server.App.{
  Job, SchedulerSettings, Process, Connection, refused, dead, alive, create_pool, set_pool,
  get_pool, close_pool, fit_jobs, fusion_jobs, cluster_jobs, start_scheduler, stop_scheduler,
}
use pothole_detection_server.App.Lifespan.{
  Phase, idle, created, published, migrated, serving, draining, failed, Step, creates, create_fails,
  publishes, migrates, migration_fails, skips_migrations, starts, stops, closes, Reach, here, next,
  fresh_process, interval, jobs_of, AreEnabled, IsOrderly,
}

create_pool_made :
    (c : Connection) (s : Process) {h : ℕ} {t : Process}
    → create_pool c s ≡ (some h, t)
    → (t.pool ≡ s.pool) × (t.open_pools ≡ h ∷ s.open_pools) × (t.scheduler ≡ s.scheduler)
unfolding create_pool
create_pool_made refused s e = absurd (ground arith)
create_pool_made dead s e = absurd (ground arith)
create_pool_made alive s e = (ground arith, ground arith, ground arith)

create_pool_failed :
    (c : Connection) (s : Process) {t : Process}
    → create_pool c s ≡ (none, t)
    → t.scheduler ≡ s.scheduler
unfolding create_pool
create_pool_failed refused s e = ground arith
create_pool_failed dead s e = ground arith
create_pool_failed alive s e = absurd (ground arith)

close_pool_closes :
    (s : Process) (h : ℕ)
    → s.pool ≡ some h
    → s.open_pools ≡ h ∷ []
    → ((close_pool s).pool ≡ none)
      × ((close_pool s).open_pools ≡ [])
      × ((close_pool s).scheduler ≡ s.scheduler)
unfolding close_pool filter
close_pool_closes s h e f = ground arith

stop_scheduler_stops :
    (s : Process)
    → ((stop_scheduler s).scheduler ≡ none)
      × ((stop_scheduler s).pool ≡ s.pool)
      × ((stop_scheduler s).open_pools ≡ s.open_pools)
unfolding stop_scheduler
stop_scheduler_stops s = ground arith

module _ (cfg : SchedulerSettings) where
  start_scheduler-AreEnabled :
      (h : ℕ) (s : Process)
      → s.scheduler ≡ none
      → AreEnabled cfg h (start_scheduler cfg h s).scheduler
  unfolding start_scheduler fit_jobs fusion_jobs cluster_jobs filter
  start_scheduler-AreEnabled h s e = elim (Bool-cases cfg.sensor_fit_enabled) [
    | inl fit ↦ elim (Bool-cases cfg.fusion_enabled) [
      | inl fusion ↦ elim (Bool-cases cfg.clustering_enabled) [
        | inl cluster ↦
            rw (start_scheduler, e, fit, fusion, cluster)
              (refl, ((refl, refl), ((refl, refl), ((refl, refl), tt))))
        | inr cluster ↦
            rw (start_scheduler, e, fit, fusion, cluster) (refl, ((refl, refl), ((refl, refl), tt)))
      ]
      | inr fusion ↦ elim (Bool-cases cfg.clustering_enabled) [
        | inl cluster ↦
            rw (start_scheduler, e, fit, fusion, cluster) (refl, ((refl, refl), ((refl, refl), tt)))
        | inr cluster ↦ rw (start_scheduler, e, fit, fusion, cluster) (refl, ((refl, refl), tt))
      ]
    ]
    | inr fit ↦ elim (Bool-cases cfg.fusion_enabled) [
      | inl fusion ↦ elim (Bool-cases cfg.clustering_enabled) [
        | inl cluster ↦
            rw (start_scheduler, e, fit, fusion, cluster) (refl, ((refl, refl), ((refl, refl), tt)))
        | inr cluster ↦ rw (start_scheduler, e, fit, fusion, cluster) (refl, ((refl, refl), tt))
      ]
      | inr fusion ↦ elim (Bool-cases cfg.clustering_enabled) [
        | inl cluster ↦ rw (start_scheduler, e, fit, fusion, cluster) (refl, ((refl, refl), tt))
        | inr cluster ↦ rw (start_scheduler, e, fit, fusion, cluster, e) (refl, tt)
      ]
    ]
  ]

  start_scheduler_starts :
      (h : ℕ) (s : Process)
      → s.scheduler ≡ none
      → AreEnabled cfg h (start_scheduler cfg h s).scheduler
        × ((start_scheduler cfg h s).pool ≡ s.pool)
        × ((start_scheduler cfg h s).open_pools ≡ s.open_pools)
  unfolding start_scheduler
  start_scheduler_starts h s e = (start_scheduler-AreEnabled h s e, ground arith, ground arith)

module _ (cfg : SchedulerSettings) (env : Text) where
  Step-IsOrderly : {x y : Phase × Process} → Step cfg env x y → IsOrderly cfg x → IsOrderly cfg y
  unfolding set_pool get_pool
  Step-IsOrderly (creates {s = s} c e) h = ground (arith, create_pool_made c s e)
  Step-IsOrderly (create_fails {s = s} c e) h = ground (arith, create_pool_failed c s e)
  Step-IsOrderly publishes h = ((refl, h.1), h.2)
  Step-IsOrderly (migrates e) h = h
  Step-IsOrderly (migration_fails e) h = h.1
  Step-IsOrderly (skips_migrations e) h = h
  Step-IsOrderly (starts {s = s} {h = p}) ((pool, alone), idle_scheduler) =
      let (jobs, same_pool, same_open) = start_scheduler_starts cfg p s idle_scheduler in
      (p, (same_pool ∙ pool, same_open ∙ alone), jobs)
  Step-IsOrderly (stops {s = s}) (p, (pool, alone), jobs) =
      let (stopped, same_pool, same_open) = stop_scheduler_stops s in
      (p, (same_pool ∙ pool, same_open ∙ alone), stopped)
  Step-IsOrderly (closes {s = s}) (p, (pool, alone), stopped) =
      let (gone, closed, same_scheduler) = close_pool_closes s p pool alone in
      (gone, closed, same_scheduler ∙ stopped)

  Reach-IsOrderly : {x y : Phase × Process} → Reach cfg env x y → IsOrderly cfg x → IsOrderly cfg y
  Reach-IsOrderly here h = h
  Reach-IsOrderly (next r step) h = Step-IsOrderly step (Reach-IsOrderly r h)

-- The pool is open.
abbrev pub is_open : ℕ → List ℕ → Bool
is_open h [] = false
is_open h (g ∷ gs) = g == h || is_open h gs

-- Every scheduled job has its pool open.
abbrev pub AreUsable : Process → Type 0
AreUsable s = All (λ j. is_open j.pool s.open_pools ≡ true) (jobs_of s.scheduler)

module _ (cfg : SchedulerSettings) (h : ℕ) where
  jobs_open :
      (jobs : List Job) (pools : List ℕ)
      → All (λ j. (j.minutes ≡ interval cfg j.function) × (j.pool ≡ h)) jobs
      → pools ≡ h ∷ []
      → All (λ j. is_open j.pool pools ≡ true) jobs
  jobs_open [] pools on alone = tt
  jobs_open (j ∷ jobs) pools ((_, there), on) alone =
      (rw (alone, there) (ground arith), jobs_open jobs pools on alone)

  AreUsable-AreEnabled :
      (s : Process) → s.open_pools ≡ h ∷ [] → AreEnabled cfg h s.scheduler → AreUsable s
  AreUsable-AreEnabled s alone (_, on) = jobs_open (jobs_of s.scheduler) s.open_pools on alone

AreUsable-none : (s : Process) → s.scheduler ≡ none → AreUsable s
AreUsable-none s e = rw e tt

module _ (cfg : SchedulerSettings) (env : Text) where
  IsOrderly-AreUsable : (x : Phase × Process) → IsOrderly cfg x → AreUsable x.1
  IsOrderly-AreUsable (idle, s) h = AreUsable-none s h.2
  IsOrderly-AreUsable (created p, s) h = AreUsable-none s h.2
  IsOrderly-AreUsable (published p, s) h = AreUsable-none s h.1
  IsOrderly-AreUsable (migrated p, s) h = AreUsable-none s h.1
  IsOrderly-AreUsable (serving, s) (p, (pool, alone), jobs) =
      AreUsable-AreEnabled cfg p s alone jobs
  IsOrderly-AreUsable (draining, s) (p, pool, stopped) = AreUsable-none s stopped
  IsOrderly-AreUsable (failed, s) h = AreUsable-none s h

  -- In every state that a process reaches, through any number of lifespans, of which any call before
  -- `yield` may fail and the two after it do not, every scheduled job has its pool open; while the
  -- server serves, `get_pool` gives the one open pool, and each kind of job is scheduled on it, once
  -- and with its interval, if and only if its setting enables it; between two lifespans no pool is
  -- open and no job is scheduled.
  pub Reach-AreUsable :
      (x : Phase × Process)
      → Reach cfg env (idle, fresh_process) x
      → IsOrderly cfg x × AreUsable x.1
  Reach-AreUsable x r =
      let orderly = Reach-IsOrderly cfg env r (refl, refl, refl) in
      (orderly, IsOrderly-AreUsable x orderly)
