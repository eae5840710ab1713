-- ===== src/System/Whole.antt =====
-- The transactions of a fusion job with nothing between them are `run_fusion_job`.
use pothole_detection_server.Prelude.{
  ℕ, ◌≡◌, ◌∙◌, ap, sym, subst, false, not, Option, none, some, List, [], ◌∷◌, arith, inl, inr,
  Option-cases,
}
use pothole_detection_server.Float.{Float}
use pothole_detection_server.Sensor.{SensorModel}
use pothole_detection_server.Sensor.Store.Table.{load_active_model}
use pothole_detection_server.Fusion.{is_null}
use pothole_detection_server.Fusion.Job.{RunContext, fusion_body, run_fusion_job}
use pothole_detection_server.System.{
  Data, tables_of, with_tables, Outside, env_score, env_fusion, System, fusion_idle, fusion_locked,
  model_loaded, scored, starts_fusion, runs_fusion, step, run_moves, Move,
}
use pothole_detection_server.System.View.{
  View, view, started, turn, view-start_fusion, view-run_fusion,
}

module _ {F G I J R : Type 0} ⦃d : Float F⦄ (env : Outside F G I J R) (run : RunContext F)
    (w : ℕ) where
  -- What the job under the lock leaves, as its worker sees it.
  abbrev whole_with : Option (Option (SensorModel F G I)) → Data F R → View F G I R
  whole_with load x =
      (with_tables (env_fusion env run false load (tables_of x)).2 x, none, fusion_idle)

  abbrev rescored : Option (SensorModel F G I) → Data F R → Data F R
  rescored model x = record x {
    asset_observation = (env_score env run model x.asset_observation).1;
  }

  last_turn :
      (model : Option (SensorModel F G I)) (x : Data F R)
      → turn env run (turn env run (x, some w, model_loaded model)) ≡ whole_with (some model) x
  unfolding run_fusion_job fusion_body
  last_turn model x = elim (Option-cases (env_score env run model x.asset_observation).0) [
    | inl raised ↦
        let two : turn env run (x, some w, model_loaded model)
            ≡ (rescored model x, none, fusion_idle) =
          ground (arith, raised) in
        ap (turn env run) two ∙ ground (arith, raised)
    | inr (n, fine) ↦
        let two : turn env run (x, some w, model_loaded model)
            ≡ (rescored model x, some w, scored model) =
          ground (arith, fine) in
        ap (turn env run) two ∙ ground (arith, fine)
  ]

  three_turns :
      (x : Data F R)
      → turn env run (turn env run (turn env run (x, some w, fusion_locked)))
        ≡ whole_with (load_active_model env.unpickle x.sensor_model) x
  unfolding run_fusion_job fusion_body
  three_turns x = elim (Option-cases (load_active_model env.unpickle x.sensor_model)) [
    | inl bad ↦
        let one : turn env run (x, some w, fusion_locked) ≡ (x, none, fusion_idle) =
          ground (arith, bad) in
        ap (λ v. turn env run (turn env run v)) one ∙ sym (ap (λ load. whole_with load x) bad)
    | inr (model, good) ↦
        let one : turn env run (x, some w, fusion_locked) ≡ (x, some w, model_loaded model) =
          ground (arith, good) in
        ap (λ v. turn env run (turn env run v)) one
        ∙ (last_turn model x ∙ sym (ap (λ load. whole_with load x) good))
  ]

  -- A whole job, from its tick to its last transaction, with nothing else between them.
  abbrev pub whole_job : List (Move F J)
  whole_job = starts_fusion w ∷ runs_fusion w run ∷ runs_fusion w run ∷ runs_fusion w run ∷ []

  view-whole_job :
      (s : System F G I R)
      → view w (run_moves env whole_job s)
        ≡ turn env run (turn env run (turn env run (started w (view w s))))
  unfolding run_moves step
  view-whole_job s =
      let s1 = step env (starts_fusion w) s in
      let s2 = step env (runs_fusion w run) s1 in
      let s3 = step env (runs_fusion w run) s2 in
      view-run_fusion env run w s3
      ∙ (ap (turn env run) (view-run_fusion env run w s2)
          ∙ (ap (λ v. turn env run (turn env run v)) (view-run_fusion env run w s1)
              ∙ ap (λ v. turn env run (turn env run (turn env run v))) (view-start_fusion w s)))

  -- The worker has left the job, with the data and the lock as `run_fusion_job` leaves them when it
  -- is called on these data with this lock.
  abbrev pub HasRunAs : Data F R → Option ℕ → System F G I R → Type 0
  HasRunAs x lock s' =
      let (end, held, t) =
        env_fusion env run (not (is_null lock)) (load_active_model env.unpickle x.sensor_model)
          (tables_of x) in
      (s'.data_of ≡ with_tables t x)
      × (not (is_null s'.fusion_lock) ≡ held)
      × ((s'.workers w).fusion ≡ fusion_idle)

  -- At a worker that is not in the job, the tick and three transactions leave the data as a call of
  -- `run_fusion_job` does that finds the lock as it is and loads the active model, however it ends;
  -- the worker is then outside the job, and the lock is held if and only if it was held before.
  run_moves-run_fusion_job :
      (s : System F G I R)
      → (s.workers w).fusion ≡ fusion_idle
      → HasRunAs s.data_of s.fusion_lock (run_moves env whole_job s)
  unfolding run_fusion_job
  run_moves-run_fusion_job s idle = elim (Option-cases s.fusion_lock) [
    | inl free ↦
        let total : view w (run_moves env whole_job s)
            ≡ whole_with (load_active_model env.unpickle s.data_of.sensor_model) s.data_of =
          view-whole_job s
          ∙ (ap
                (λ l.
                  turn env run
                    (turn env run (turn env run (started w (s.data_of, l, (s.workers w).fusion)))))
                free
              ∙ three_turns s.data_of) in
        subst (λ l. HasRunAs s.data_of l (run_moves env whole_job s)) (sym free)
          (ap (λ v. v.0) total, ap (λ v. not (is_null v.1)) total, ap (λ v. v.2) total)
    | inr (v, taken) ↦
        let total : view w (run_moves env whole_job s) ≡ (s.data_of, some v, fusion_idle) =
          view-whole_job s
          ∙ (ap
                (λ l.
                  turn env run
                    (turn env run (turn env run (started w (s.data_of, l, (s.workers w).fusion)))))
                taken
              ∙ ap (λ p. turn env run (turn env run (turn env run (s.data_of, some v, p)))) idle) in
        subst (λ l. HasRunAs s.data_of l (run_moves env whole_job s)) (sym taken)
          (ap (λ x. x.0) total, ap (λ x. not (is_null x.1)) total, ap (λ x. x.2) total)
  ]
