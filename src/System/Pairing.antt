-- ===== src/System/Pairing.antt =====
-- The last transaction of a fusion job, in any state that the server comes to.
use pothole_detection_server.Prelude.{◌≡◌, ◌∙◌, none, ap, Option, some, List, length, ℕ}
use pothole_detection_server.Float.{Float, zero_f, ◌≺◌}
use pothole_detection_server.Float.Laws.{IsFloat}
use pothole_detection_server.Engine.{get_engine}
use pothole_detection_server.Sensor.{SensorModel}
use pothole_detection_server.Fusion.{Tables}
use pothole_detection_server.Fusion.Job.{RunContext, version_of}
use pothole_detection_server.Fusion.Job.Ends.{IsNewRun, candidates, IsPaired, pair_and_fuse_total}
use pothole_detection_server.System.{
  tables_of, with_tables, Outside, env_pair, System, fusion_idle, scored, Move, run_fusion,
  run_moves,
}
use pothole_detection_server.System.Evolves.{IsSound}
use pothole_detection_server.System.Sound.{run_moves-IsSound}
use pothole_detection_server.System.View.{view, turn, view-run_fusion}

module _ {F G I J R : Type 0} ⦃d : Float F⦄ (laws : IsFloat F) (env : Outside F G I J R) where
  -- The pairing transaction of these data ends well, with a pair of its run for every candidate,
  -- and the worker then leaves the job with what it wrote.
  abbrev pub Pairs : RunContext F → Option (SensorModel F G I) → ℕ → System F G I R → Type 0
  Pairs run model w s =
      let t = tables_of s.data_of in
      (t' : Tables F) × (env_pair env run model t
        ≡ (some (length (candidates env.precedes env.distance env.within env.fusion_cfg t)), t'))
      × IsPaired env.precedes env.distance env.within env.fusion_cfg run.run_id t t'
      × ((run_fusion env w run s).data_of ≡ with_tables t' s.data_of)
      × (((run_fusion env w run s).workers w).fusion ≡ fusion_idle)

  pub run_moves-Pairs :
      (ms : List (Move F J)) (s : System F G I R) (w : ℕ) (run : RunContext F)
      (model : Option (SensorModel F G I))
      → IsSound s.data_of
      → zero_f ≺ env.engines.severity_speed_ref
      → IsNewRun run.run_id
          (get_engine env.engines (version_of model))
          (run_moves env ms s).data_of.fusion_run
      → ((run_moves env ms s).workers w).fusion ≡ scored model
      → Pairs run model w (run_moves env ms s)
  run_moves-Pairs ms s w run model sound ref new phase =
      let s' = run_moves env ms s in
      let x = s'.data_of in
      let now_sound = run_moves-IsSound env ms s sound in
      let (t', e, paired) =
        pair_and_fuse_total laws env.precedes env.distance env.within env.to_ms env.fusion_cfg
          env.engines run model (tables_of x) now_sound.paired.0 new ref in
      let seen : view w (run_fusion env w run s') ≡ (with_tables t' x, none, fusion_idle) =
        view-run_fusion env run w s'
        ∙ (ap (λ p. turn env run (x, s'.fusion_lock, p)) phase
            ∙ ap (λ r. (with_tables r.1 x, none, fusion_idle)) e) in
      (t', e, paired, ap (λ v. v.0) seen, ap (λ v. v.2) seen)
