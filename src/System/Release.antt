-- ===== src/System/Release.antt =====
-- A worker in the fusion job gives the lock back.
use pothole_detection_server.Prelude.{
  ℕ, ◌+◌, ◌-◌, ◌≤◌, ◌==◌, ◌≡◌, ◌∙◌, refl, ap, sym, subst, false, some, List, [], ◌∷◌, arith, Text,
  inl, inr, Bool-cases, Option-cases, if◌then◌else◌,
}
use pothole_detection_server.Float.{Float}
use pothole_detection_server.Routes.{post_events, post_frames}
use pothole_detection_server.Sensor.Store.Table.{load_active_model}
use pothole_detection_server.Fusion.Job.{RunContext}
use pothole_detection_server.System.{
  tables_of, with_tables, Outside, env_score, env_pair, System, FusionPhase, fusion_idle,
  fusion_locked, model_loaded, scored, Move, sends_events, sends_frame, starts_fusion, runs_fusion,
  starts_fit, runs_fit, starts_clustering, counts, clusters, restarts, set_worker, server_at,
  enter_cluster, end_cluster, enter_fit, run_fusion, run_fit, run_clustering, step, run_moves,
}
use pothole_detection_server.System.View.{View, view, turn, view-run_fusion}
use pothole_detection_server.System.Locks.{in_fusion, holds, IsExclusive}
use pothole_detection_server.System.Exclusive.{run_moves-IsExclusive}
use pothole_detection_server.System.Phase.{
  left, phase_at, phase-put_server, phase-enter_fit, phase-start_clustering, phase-count_members,
  phase-start_fusion, phase-enter_fusion, phase-end_fusion, left-restart,
}

module _ {F J : Type 0} where
  -- The transactions of the fusion job that worker `w` runs, and the ticks of it that it gets.
  abbrev pub turns_in : ℕ → Move F J → ℕ
  turns_in w (runs_fusion v run) = if v == w then 1 else 0
  turns_in w _ = 0

  abbrev pub ticks_in : ℕ → Move F J → ℕ
  ticks_in w (starts_fusion v) = if v == w then 1 else 0
  ticks_in w _ = 0

  abbrev pub turns_of : ℕ → List (Move F J) → ℕ
  turns_of w [] = 0
  turns_of w (m ∷ ms) = turns_in w m + turns_of w ms

  abbrev pub ticks_of : ℕ → List (Move F J) → ℕ
  ticks_of w [] = 0
  ticks_of w (m ∷ ms) = ticks_in w m + ticks_of w ms

module _ {F G I J R : Type 0} ⦃d : Float F⦄ (env : Outside F G I J R) where
  left-turn : (run : RunContext F) (v : View F G I R) → left (turn env run v).2 ≤ left v.2 - 1
  left-turn run (x, lock, fusion_idle) = omega arith
  left-turn run (x, lock, fusion_locked) = ground arith
  left-turn run (x, lock, model_loaded model) = ground arith
  left-turn run (x, lock, scored model) = omega arith

  own_left :
      (w : ℕ) (run : RunContext F) (s : System F G I R)
      → left (phase_at w (run_fusion env w run s)) ≤ left (phase_at w s) - 1
  own_left w run s =
      omega (arith, ap (λ v. left v.2) (view-run_fusion env run w s), left-turn run (view w s))

  phase-run_fusion :
      (w v : ℕ) (run : RunContext F) (s : System F G I R)
      → (v == w) ≡ false
      → phase_at w (run_fusion env v run s) ≡ phase_at w s
  unfolding run_fusion
  phase-run_fusion w v run s other = go (phase_at v s) refl
    where
      go :
          (phase : FusionPhase F G I)
          → phase_at v s ≡ phase
          → phase_at w (run_fusion env v run s) ≡ phase_at w s
      go fusion_idle e = rw (run_fusion, e)
      go fusion_locked e =
          elim (Option-cases (load_active_model env.unpickle s.data_of.sensor_model)) [
            | inl bad ↦ rw (run_fusion, e, bad) (phase-end_fusion w v s other)
            | inr (model, good) ↦
                rw (run_fusion, e, good) (phase-enter_fusion w v (model_loaded model) s other)
          ]
      go (model_loaded model) e =
          let (n, rows) = env_score env run model s.data_of.asset_observation in
          let s' : System F G I R = record s {
            data_of = record s.data_of { asset_observation = rows };
          } in
          elim (Option-cases n) [
            | inl bad ↦ rw (run_fusion, e, bad) (phase-end_fusion w v s' other)
            | inr (k, good) ↦
                rw (run_fusion, e, good) (phase-enter_fusion w v (scored model) s' other)
          ]
      go (scored model) e =
          let s' : System F G I R = record s {
            data_of = with_tables (env_pair env run model (tables_of s.data_of)).1 s.data_of;
          } in
          rw (run_fusion, e) (phase-end_fusion w v s' other)

  phase-run_fit :
      (w v : ℕ) (hex : Text) (s : System F G I R) → phase_at w (run_fit env v hex s) ≡ phase_at w s
  unfolding run_fit enter_fit set_worker
  phase-run_fit w v hex s = ground arith

  phase-run_clustering :
      (w v : ℕ) (run_id : Text) (at now : ℕ) (uuid : ℕ → Text) (s : System F G I R)
      → phase_at w (run_clustering env v run_id at now uuid s) ≡ phase_at w s
  unfolding run_clustering end_cluster enter_cluster set_worker
  phase-run_clustering w v run_id at now uuid s = ground arith

  -- A move leaves the worker as far from the end as it was, a transaction of its own one nearer.
  left-step :
      (m : Move F J) (s : System F G I R) (w : ℕ)
      → ticks_in w m ≡ 0
      → left (phase_at w (step env m s)) ≤ left (phase_at w s) - turns_in w m
  unfolding step
  left-step (sends_events v clock x y events) s w quiet =
      let (_, server) =
        post_events env.fromisoformat env.refuses env.settings clock x y events (server_at v s) in
      ground (arith, phase-put_server w v server s)
  left-step (sends_frame v clock disk x y metadata jpeg) s w quiet =
      let (_, server) =
        post_frames env.fromisoformat env.dumps env.loads env.upload env.frame_refuses env.settings
          clock disk x y metadata jpeg (server_at v s) in
      omega (arith, ap left (phase-put_server w v server s))
  left-step (starts_fusion v) s w quiet =
      omega (arith, ap left (phase-start_fusion w v s (ground arith)))
  left-step (runs_fusion v run) s w quiet = elim (Bool-cases (v == w)) [
    | inl own ↦
        let same_worker : v ≡ w = ground arith in
        rw own (
          subst (λ u. left (phase_at w (run_fusion env u run s)) ≤ left (phase_at w s) - 1)
            (sym same_worker) (own_left w run s))
    | inr other ↦ rw other (omega (arith, ap left (phase-run_fusion w v run s other)))
  ]
  left-step (starts_fit v) s w quiet =
      ground (arith, phase-enter_fit w v (some s.data_of.asset_observation) s)
  left-step (runs_fit v hex) s w quiet = omega (arith, ap left (phase-run_fit w v hex s))
  left-step (starts_clustering v) s w quiet = omega (arith, ap left (phase-start_clustering w v s))
  left-step (counts v now) s w quiet = omega (arith, ap left (phase-count_members w v now s))
  left-step (clusters v run_id at now uuid) s w quiet =
      omega (arith, ap left (phase-run_clustering w v run_id at now uuid s))
  left-step (restarts v) s w quiet = omega (arith, left-restart w v s)

  left-run_moves :
      (ms : List (Move F J)) (s : System F G I R) (w : ℕ)
      → ticks_of w ms ≡ 0
      → left (phase_at w (run_moves env ms s)) ≤ left (phase_at w s) - turns_of w ms
  unfolding run_moves
  left-run_moves [] s w quiet = omega arith
  left-run_moves (m ∷ ms) s w quiet =
      let here = left-step m s w (omega arith) in
      omega (arith, here, left-run_moves ms (step env m s) w (omega arith))

  left-idle : (phase : FusionPhase F G I) → left phase ≤ 0 → phase ≡ fusion_idle
  left-idle phase h = ground arith

  -- A worker in the fusion job that runs as many of its transactions as the job has left, without
  -- another tick of the job, is outside the job and does not hold its lock, whatever requests, jobs
  -- and restarts there are meanwhile at any workers, and whatever fails in the transactions.
  pub run_moves_releases :
      (ms : List (Move F J)) (s : System F G I R) (w : ℕ)
      → IsExclusive s
      → ticks_of w ms ≡ 0
      → left (phase_at w s) ≤ turns_of w ms
      → let s' = run_moves env ms s in
        (phase_at w s' ≡ fusion_idle) × (holds w s'.fusion_lock ≡ false)
  run_moves_releases ms s w h quiet enough =
      let idle =
        left-idle (phase_at w (run_moves env ms s)) (omega (arith, left-run_moves ms s w quiet)) in
      (idle, sym (run_moves-IsExclusive env ms s h w).0 ∙ ap in_fusion idle)
