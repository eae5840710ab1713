-- ===== src/System/View.antt =====
-- A fusion job as its own worker sees it: the data, the lock, and how far the job is.
use pothole_detection_server.Prelude.{
  ℕ, ◌≡◌, refl, ap, Option, none, some, arith, inl, inr, Option-cases,
}
use pothole_detection_server.Float.{Float}
use pothole_detection_server.Sensor.Store.Table.{load_active_model}
use pothole_detection_server.Fusion.Job.{RunContext}
use pothole_detection_server.System.{
  Data, tables_of, with_tables, Outside, env_score, env_pair, System, FusionPhase, fusion_idle,
  fusion_locked, model_loaded, scored, Worker, set_worker, enter_fusion, end_fusion, start_fusion,
  run_fusion,
}

abbrev pub View : (F G I R : Type 0) → Type 0
View F G I R = Data F R × Option ℕ × FusionPhase F G I

set_worker_at :
    {F G I : Type 0} (w : ℕ) (x : Worker F G I) (f : ℕ → Worker F G I) → set_worker w x f w ≡ x
unfolding set_worker
set_worker_at w x f = ground arith

module _ {F G I R : Type 0} where
  abbrev pub view : ℕ → System F G I R → View F G I R
  view w s = (s.data_of, s.fusion_lock, (s.workers w).fusion)

  view-enter_fusion :
      (w : ℕ) (phase : FusionPhase F G I) (s : System F G I R)
      → view w (enter_fusion w phase s) ≡ (s.data_of, s.fusion_lock, phase)
  unfolding enter_fusion
  view-enter_fusion w phase s =
      ap (λ x. (s.data_of, s.fusion_lock, x.fusion))
        (set_worker_at w (record (s.workers w) { fusion = phase }) s.workers)

  view-end_fusion :
      (w : ℕ) (s : System F G I R) → view w (end_fusion w s) ≡ (s.data_of, none, fusion_idle)
  unfolding end_fusion enter_fusion
  view-end_fusion w s =
      ap (λ x. (s.data_of, none, x.fusion))
        (set_worker_at w (record (s.workers w) { fusion = fusion_idle }) s.workers)

  abbrev pub started : ℕ → View F G I R → View F G I R
  started w (x, some v, phase) = (x, some v, phase)
  started w (x, none, phase) = (x, some w, fusion_locked)

  pub view-start_fusion :
      (w : ℕ) (s : System F G I R) → view w (start_fusion w s) ≡ started w (view w s)
  unfolding start_fusion enter_fusion
  view-start_fusion w s = elim (Option-cases s.fusion_lock) [
    | inl free ↦
        rw (start_fusion, free)
          (ap (λ x. (s.data_of, some w, x.fusion))
            (set_worker_at w (record (s.workers w) { fusion = fusion_locked }) s.workers))
    | inr (v, taken) ↦
        rw (start_fusion, taken) (ap (λ l. (s.data_of, l, (s.workers w).fusion)) taken)
  ]

module _ {F G I J R : Type 0} ⦃d : Float F⦄ (env : Outside F G I J R) (run : RunContext F) where
  abbrev pub turn : View F G I R → View F G I R
  turn (x, lock, fusion_idle) = (x, lock, fusion_idle)
  turn (x, lock, fusion_locked) = elim (load_active_model env.unpickle x.sensor_model) [
    | none ↦ (x, none, fusion_idle)
    | some model ↦ (x, lock, model_loaded model)
  ]
  turn (x, lock, model_loaded model) =
      let (n, rows) = env_score env run model x.asset_observation in
      let x' = record x { asset_observation = rows } in
      elim n [ none ↦ (x', none, fusion_idle) | some _ ↦ (x', lock, scored model) ]
  turn (x, lock, scored model) =
      (with_tables (env_pair env run model (tables_of x)).1 x, none, fusion_idle)

  pub view-run_fusion :
      (w : ℕ) (s : System F G I R) → view w (run_fusion env w run s) ≡ turn (view w s)
  unfolding run_fusion
  view-run_fusion w s = go (s.workers w).fusion refl
    where
      go :
          (phase : FusionPhase F G I)
          → (s.workers w).fusion ≡ phase
          → view w (run_fusion env w run s) ≡ turn (view w s)
      go fusion_idle e = rw (run_fusion, e) (ap (λ p. (s.data_of, s.fusion_lock, p)) e)
      go fusion_locked e =
          elim (Option-cases (load_active_model env.unpickle s.data_of.sensor_model)) [
            | inl bad ↦ rw (run_fusion, e, bad, view-end_fusion w s)
            | inr (model, good) ↦
                rw (run_fusion, e, good, view-enter_fusion w (model_loaded model) s)
          ]
      go (model_loaded model) e =
          let (n, rows) = env_score env run model s.data_of.asset_observation in
          let s' : System F G I R = record s {
            data_of = record s.data_of { asset_observation = rows };
          } in
          elim (Option-cases n) [
            | inl bad ↦ rw (run_fusion, e, bad, view-end_fusion w s')
            | inr (k, good) ↦ rw (run_fusion, e, good, view-enter_fusion w (scored model) s')
          ]
      go (scored model) e =
          let s' : System F G I R = record s {
            data_of = with_tables (env_pair env run model (tables_of s.data_of)).1 s.data_of;
          } in
          rw (run_fusion, e, view-end_fusion w s')
