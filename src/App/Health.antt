-- ===== src/App/Health.antt =====
-- app/routes/health.py: the answer of the health check.
use pothole_detection_server.Prelude.{
  ℕ, ◌≡◌, ◌⊎◌, inl, inr, refl, Option, none, some, [], ◌∷◌, Text, codes, Option-cases,
}
use pothole_detection_server.App.{Process, SchedulerSettings, get_pool}
use pothole_detection_server.App.Lifespan.{idle, serving, Reach, fresh_process}
use pothole_detection_server.App.Orderly.{Reach-AreUsable}

-- The dictionary that the handler returns. It sets no status, in neither case.
pub record Health : Type 0 where
  pub status : Text
  pub db : Text
  pub version : Text
  pub error : Option Text

-- `str(e)` of the RuntimeError of `get_pool`
abbrev pub not_initialized : Text
not_initialized = codes "Database pool is not initialized. Is the app running?"

abbrev pub healthy_answer : Health
healthy_answer = record {
  status = codes "healthy";
  db = codes "connected";
  version = codes "2.0.0";
  error = none;
}

abbrev pub unhealthy_answer : Text → Health
unhealthy_answer e = record {
  status = codes "unhealthy";
  db = codes "disconnected";
  version = codes "2.0.0";
  error = some e;
}

-- `ping h` is what `SELECT 1` over the pool raises, `none` for nothing.
pub health_check : (ℕ → Option Text) → Process → Health
health_check ping s = elim (get_pool s) [
  | none ↦ unhealthy_answer not_initialized
  | some h ↦ elim (ping h) [ none ↦ healthy_answer | some e ↦ unhealthy_answer e ]
]

module _ (ping : ℕ → Option Text) where
  health_check-none :
      (s : Process) → s.pool ≡ none → health_check ping s ≡ unhealthy_answer not_initialized
  unfolding health_check get_pool
  health_check-none s e = rw (health_check, get_pool, e) refl

  health_check-some :
      (s : Process) (h : ℕ)
      → get_pool s ≡ some h
      → ((ping h ≡ none) × (health_check ping s ≡ healthy_answer))
        ⊎ ((e : Text) × (ping h ≡ some e) × (health_check ping s ≡ unhealthy_answer e))
  unfolding health_check
  health_check-some s h found = elim (Option-cases (ping h)) [
    | inl well ↦ inl (well, rw (health_check, found, well) refl)
    | inr (e, ill) ↦ inr (e, ill, rw (health_check, found, ill) refl)
  ]

module _ (cfg : SchedulerSettings) (env : Text) (ping : ℕ → Option Text) where
  -- Where the process is not started or has shut down, the health check names the missing pool.
  health_check_idle :
      (s : Process)
      → Reach cfg env (idle, fresh_process) (idle, s)
      → health_check ping s ≡ unhealthy_answer not_initialized
  health_check_idle s r = health_check-none ping s (Reach-AreUsable cfg env (idle, s) r).0.0

  -- In a process that serves, the health check asks the one open pool: if `SELECT 1` over it raises
  -- nothing it says healthy, and else unhealthy with the error.
  health_check_serving :
      (s : Process)
      → Reach cfg env (idle, fresh_process) (serving, s)
      → (h : ℕ) × (s.open_pools ≡ h ∷ [])
        × (((ping h ≡ none) × (health_check ping s ≡ healthy_answer))
            ⊎ ((e : Text) × (ping h ≡ some e) × (health_check ping s ≡ unhealthy_answer e)))
  health_check_serving s r =
      let ((h, (pool, alone), _), _) = Reach-AreUsable cfg env (serving, s) r in
      (h, alone, health_check-some ping s h pool)
