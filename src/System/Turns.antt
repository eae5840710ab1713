-- ===== src/System/Turns.antt =====
-- The transactions of the jobs keep the data of the server well-formed.
use pothole_detection_server.Prelude.{ℕ, ◌≡◌, refl, ap, Option, Text, inl, inr, Option-cases}
use pothole_detection_server.Float.{Float}
use pothole_detection_server.Sensor.{SensorModel}
use pothole_detection_server.Sensor.Store.Table.{load_active_model}
use pothole_detection_server.Events.Changes.{Changes-eq, untouched}
use pothole_detection_server.Fusion.Ids.{Grows-refl, Grows-eq, observation_ids, frame_ids}
use pothole_detection_server.Fusion.Job.{RunContext}
use pothole_detection_server.Fusion.Job.Keeps.{pair_and_fuse-KeepsTables, score_with-Changes}
use pothole_detection_server.FitJob.Active.{run_fit_job_active}
use pothole_detection_server.Cluster.Keeps.{ids-cluster_body}
use pothole_detection_server.System.{
  Data, evidence_at, tables_of, with_tables, Outside, env_score, env_pair, System, FusionPhase,
  fusion_idle, fusion_locked, model_loaded, scored, ClusterPhase, cluster_idle, cluster_locked,
  members_counted, enter_fusion, end_fusion, enter_cluster, end_cluster, enter_fit, run_fusion,
  run_fit, run_clustering,
}
use pothole_detection_server.System.Evolves.{IsSound, Evolves, Evolves-refl, Evolves-rows}

module _ {F G I J R : Type 0} ⦃d : Float F⦄ (env : Outside F G I J R) where
  Evolves-score :
      (run : RunContext F) (model : Option (SensorModel F G I)) {x : Data F R}
      → IsSound x
      → Evolves x (record x { asset_observation = (env_score env run model x.asset_observation).1 })
  Evolves-score run model {x = x} s =
      let same_ids =
        score_with-Changes env.precedes env.distance env.within env.to_ms env.fusion_cfg env.engines
          run env.pdf env.predict model x.asset_observation in
      Evolves-rows (env_score env run model x.asset_observation).1 x.frames s (same_ids)
        (Grows-refl (frame_ids x.frames.asset_frame))

  Evolves-pair :
      (run : RunContext F) (model : Option (SensorModel F G I)) {x : Data F R}
      → IsSound x
      → Evolves x (with_tables (env_pair env run model (tables_of x)).1 x)
  Evolves-pair run model {x = x} s =
      let (same_rows, same_ids, paired) =
        pair_and_fuse-KeepsTables env.precedes env.distance env.within env.to_ms env.fusion_cfg
          env.engines run model (tables_of x) s.paired in
      let g = Grows-eq (ap observation_ids same_rows) in
      let h = Grows-eq same_ids in
      record {
        observations = Changes-eq same_rows;
        frames = h;
        sound = record {
          observed_once = g.distinct s.observed_once;
          framed_once = h.distinct s.framed_once;
          paired = paired;
          one_active = s.one_active;
          clustered_once = s.clustered_once;
        };
      }

  pub run_fusion-Evolves :
      (w : ℕ) (run : RunContext F) (s : System F G I R)
      → IsSound s.data_of
      → Evolves s.data_of (run_fusion env w run s).data_of
  unfolding run_fusion enter_fusion end_fusion
  run_fusion-Evolves w run s h = go (s.workers w).fusion refl
    where
      go :
          (phase : FusionPhase F G I)
          → (s.workers w).fusion ≡ phase
          → Evolves s.data_of (run_fusion env w run s).data_of
      go fusion_idle e = rw (run_fusion, e) (Evolves-refl h)
      go fusion_locked e =
          elim (Option-cases (load_active_model env.unpickle s.data_of.sensor_model)) [
            | inl bad ↦ rw (run_fusion, e, bad) (Evolves-refl h)
            | inr (model, good) ↦ rw (run_fusion, e, good) (Evolves-refl h)
          ]
      go (model_loaded model) e =
          elim (Option-cases (env_score env run model s.data_of.asset_observation).0) [
            | inl bad ↦ rw (run_fusion, e, bad) (Evolves-score run model h)
            | inr (n, good) ↦ rw (run_fusion, e, good) (Evolves-score run model h)
          ]
      go (scored model) e = rw (run_fusion, e) (Evolves-pair run model h)

  pub run_fit-Evolves :
      (w : ℕ) (hex : Text) (s : System F G I R)
      → IsSound s.data_of
      → Evolves s.data_of (run_fit env w hex s).data_of
  unfolding run_fit enter_fit
  run_fit-Evolves w hex s h = elim (Option-cases (s.workers w).fit) [
    | inl idle ↦ rw (run_fit, idle) (Evolves-refl h)
    | inr (before, e) ↦
        let one =
          run_fit_job_active env.transport env.unpickle env.kit env.fit_cfg hex before
            s.data_of.asset_observation s.data_of.sensor_model h.one_active in
        rw (run_fit, e)
          (record {
            observations = untouched;
            frames = Grows-refl (frame_ids s.data_of.frames.asset_frame);
            sound = record {
              observed_once = h.observed_once;
              framed_once = h.framed_once;
              paired = h.paired;
              one_active = one;
              clustered_once = h.clustered_once;
            };
          })
  ]

  pub run_clustering-Evolves :
      (w : ℕ) (run_id : Text) (at now : ℕ) (uuid : ℕ → Text) (s : System F G I R)
      → IsSound s.data_of
      → Evolves s.data_of (run_clustering env w run_id at now uuid s).data_of
  unfolding run_clustering end_cluster enter_cluster
  run_clustering-Evolves w run_id at now uuid s h = go (s.workers w).cluster refl
    where
      go :
          (phase : ClusterPhase F)
          → (s.workers w).cluster ≡ phase
          → Evolves s.data_of (run_clustering env w run_id at now uuid s).data_of
      go cluster_idle e = rw (run_clustering, e) (Evolves-refl h)
      go cluster_locked e = rw (run_clustering, e) (Evolves-refl h)
      go (members_counted before) e =
          let unique =
            ids-cluster_body env.db env.cos_radians env.cluster_cfg run_id now uuid before
              (evidence_at at s.data_of) s.data_of.clusters h.observed_once h.clustered_once in
          rw (run_clustering, e)
            (record {
              observations = untouched;
              frames = Grows-refl (frame_ids s.data_of.frames.asset_frame);
              sound = record {
                observed_once = h.observed_once;
                framed_once = h.framed_once;
                paired = h.paired;
                one_active = h.one_active;
                clustered_once = unique;
              };
            })
