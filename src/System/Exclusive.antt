-- ===== src/System/Exclusive.antt =====
-- Two workers are never in the same job at once, and no lock is left behind.
use pothole_detection_server.Prelude.{
  ℕ, ◌≡◌, refl, ap, false, none, some, List, [], ◌∷◌, arith, Text, inl, inr, Bool-cases,
  Option-cases, ◌⊎◌, ◌&&◌,
}
use pothole_detection_server.Float.{Float}
use pothole_detection_server.Events.{validate_batch}
use pothole_detection_server.Routes.{post_events, post_frames}
use pothole_detection_server.Sensor.Store.Table.{load_active_model}
use pothole_detection_server.Fusion.Job.{RunContext}
use pothole_detection_server.FitJob.{run_fit_job}
use pothole_detection_server.Cluster.Job.{cluster_body}
use pothole_detection_server.System.{
  Outside, evidence_at, tables_of, with_tables, env_pair, env_score, System, FusionPhase,
  fusion_idle, fusion_locked, model_loaded, scored, ClusterPhase, cluster_idle, cluster_locked,
  members_counted, Move, sends_events, sends_frame, starts_fusion, runs_fusion, starts_fit,
  runs_fit, starts_clustering, counts, clusters, restarts, server_at, run_fusion, run_fit,
  run_clustering, step, run_moves,
}
use pothole_detection_server.System.Locks.{
  in_fusion, in_cluster, IsExclusive, enter_fusion-IsExclusive, end_fusion-IsExclusive,
  start_fusion-IsExclusive, restart-IsExclusive, end_cluster-IsExclusive,
  start_clustering-IsExclusive, put_server-IsExclusive, enter_fit-IsExclusive,
  count_members-IsExclusive,
}

module _ {F G I J R : Type 0} ⦃d : Float F⦄ (env : Outside F G I J R) where
  run_fusion-IsExclusive :
      (w : ℕ) (run : RunContext F) (s : System F G I R)
      → IsExclusive s
      → IsExclusive (run_fusion env w run s)
  unfolding run_fusion
  run_fusion-IsExclusive w run s h = go (s.workers w).fusion refl
    where
      go :
          (phase : FusionPhase F G I)
          → (s.workers w).fusion ≡ phase
          → IsExclusive (run_fusion env w run s)
      go fusion_idle e = rw (run_fusion, e) h
      go fusion_locked e =
          elim (Option-cases (load_active_model env.unpickle s.data_of.sensor_model)) [
            | inl bad ↦ rw (run_fusion, e, bad) (end_fusion-IsExclusive w s h (ap in_fusion e))
            | inr (model, good) ↦
                rw (run_fusion, e, good)
                  (enter_fusion-IsExclusive w (model_loaded model) s h (ap in_fusion e) refl)
          ]
      go (model_loaded model) e =
          let (n, rows) = env_score env run model s.data_of.asset_observation in
          let s' : System F G I R = record s {
            data_of = record s.data_of { asset_observation = rows };
          } in
          elim (Option-cases n) [
            | inl bad ↦ rw (run_fusion, e, bad) (end_fusion-IsExclusive w s' h (ap in_fusion e))
            | inr (k, good) ↦
                rw (run_fusion, e, good)
                  (enter_fusion-IsExclusive w (scored model) s' h (ap in_fusion e) refl)
          ]
      go (scored model) e =
          let s' : System F G I R = record s {
            data_of = with_tables (env_pair env run model (tables_of s.data_of)).1 s.data_of;
          } in
          rw (run_fusion, e) (end_fusion-IsExclusive w s' h (ap in_fusion e))

  run_fit-IsExclusive :
      (w : ℕ) (hex : Text) (s : System F G I R) → IsExclusive s → IsExclusive (run_fit env w hex s)
  unfolding run_fit
  run_fit-IsExclusive w hex s h = elim (Option-cases (s.workers w).fit) [
    | inl idle ↦ rw (run_fit, idle) h
    | inr (before, e) ↦
        let (end, rows) =
          run_fit_job env.transport env.unpickle env.kit env.fit_cfg hex before
            s.data_of.asset_observation s.data_of.sensor_model in
        let s' : System F G I R = record s { data_of = record s.data_of { sensor_model = rows } } in
        rw (run_fit, e) (enter_fit-IsExclusive w none s' h)
  ]

  run_clustering-IsExclusive :
      (w : ℕ) (run_id : Text) (at now : ℕ) (uuid : ℕ → Text) (s : System F G I R)
      → IsExclusive s
      → IsExclusive (run_clustering env w run_id at now uuid s)
  unfolding run_clustering
  run_clustering-IsExclusive w run_id at now uuid s h = go (s.workers w).cluster refl
    where
      go :
          (phase : ClusterPhase F)
          → (s.workers w).cluster ≡ phase
          → IsExclusive (run_clustering env w run_id at now uuid s)
      go cluster_idle e = rw (run_clustering, e) h
      go cluster_locked e = rw (run_clustering, e) h
      go (members_counted before) e =
          let (end, t) =
            cluster_body env.db env.cos_radians env.cluster_cfg run_id now uuid before
              (evidence_at at s.data_of) s.data_of.clusters in
          let s' : System F G I R = record s { data_of = record s.data_of { clusters = t } } in
          rw (run_clustering, e) (end_cluster-IsExclusive w s' h (ap in_cluster e))

  start_fit-IsExclusive :
      (w : ℕ) (s : System F G I R) → IsExclusive s → IsExclusive (step env (starts_fit w) s)
  unfolding step
  start_fit-IsExclusive w s h = elim (Option-cases (s.workers w).fit) [
    | inl idle ↦ rw (step, idle) (enter_fit-IsExclusive w (some s.data_of.asset_observation) s h)
    | inr (before, e) ↦ rw (step, e) h
  ]

  step-IsExclusive :
      (m : Move F J) (s : System F G I R) → IsExclusive s → IsExclusive (step env m s)
  unfolding step
  step-IsExclusive (sends_events w clock x v events) s h =
      let (_, server) =
        post_events env.fromisoformat env.refuses env.settings clock x v events (server_at w s) in
      elim (Bool-cases (validate_batch env.fromisoformat events)) [
        | inl valid ↦ rw (step, valid) (put_server-IsExclusive w server s h)
        | inr refused ↦ rw (step, refused) h
      ]
  step-IsExclusive (sends_frame w clock disk x v metadata jpeg) s h =
      let (_, server) =
        post_frames env.fromisoformat env.dumps env.loads env.upload env.frame_refuses env.settings
          clock disk x v metadata jpeg (server_at w s) in
      put_server-IsExclusive w server s h
  step-IsExclusive (starts_fusion w) s h = start_fusion-IsExclusive w s h
  step-IsExclusive (runs_fusion w run) s h = run_fusion-IsExclusive w run s h
  step-IsExclusive (starts_fit w) s h = start_fit-IsExclusive w s h
  step-IsExclusive (runs_fit w hex) s h = run_fit-IsExclusive w hex s h
  step-IsExclusive (starts_clustering w) s h = start_clustering-IsExclusive w s h
  step-IsExclusive (counts w now) s h = count_members-IsExclusive w now s h
  step-IsExclusive (clusters w run_id at now uuid) s h =
      run_clustering-IsExclusive w run_id at now uuid s h
  step-IsExclusive (restarts w) s h = restart-IsExclusive w s h

  -- If every worker is in the fusion job exactly when it holds its lock, and in the clustering job
  -- exactly when it holds that one's, then the same is true after any sequence of requests, ticks,
  -- transactions and restarts at any workers: no lock is left behind.
  pub run_moves-IsExclusive :
      (ms : List (Move F J)) (s : System F G I R) → IsExclusive s → IsExclusive (run_moves env ms s)
  unfolding run_moves
  run_moves-IsExclusive [] s h = h
  run_moves-IsExclusive (m ∷ ms) s h =
      run_moves-IsExclusive ms (step env m s) (step-IsExclusive m s h)

  -- So two workers are never in the same job at once.
  run_moves_alone :
      (ms : List (Move F J)) (s : System F G I R) (v w : ℕ)
      → IsExclusive s
      → let s' = run_moves env ms s in
        (v ≡ w)
        ⊎ (((in_fusion (s'.workers v).fusion && in_fusion (s'.workers w).fusion) ≡ false)
            × ((in_cluster (s'.workers v).cluster && in_cluster (s'.workers w).cluster) ≡ false))
  run_moves_alone ms s v w h =
      let after = run_moves-IsExclusive ms s h in ground (arith, after v, after w)
