-- ===== src/System/Phase.antt =====
-- How far a worker is in the fusion job, and what does not move it.
use pothole_detection_server.Prelude.{ℕ, ◌≤◌, ◌==◌, ◌≡◌, false, Option, List, arith}
use pothole_detection_server.Routes.{Server}
use pothole_detection_server.Schema.{Observation}
use pothole_detection_server.System.{
  System, FusionPhase, fusion_idle, fusion_locked, model_loaded, scored, set_worker, put_server,
  enter_fusion, end_fusion, enter_cluster, enter_fit, start_fusion, start_clustering, restart,
  count_members,
}

-- The transactions that a worker in the job has at most before it.
abbrev pub left : {F G I : Type 0} → FusionPhase F G I → ℕ
left fusion_idle = 0
left fusion_locked = 3
left (model_loaded m) = 2
left (scored m) = 1

module _ {F G I R : Type 0} where
  abbrev pub phase_at : ℕ → System F G I R → FusionPhase F G I
  phase_at w s = (s.workers w).fusion

  pub phase-put_server :
      (w v : ℕ) (server : Server F R) (s : System F G I R)
      → phase_at w (put_server v server s) ≡ phase_at w s
  unfolding put_server set_worker
  phase-put_server w v server s = ground arith

  pub phase-enter_fit :
      (w v : ℕ) (fit : Option (List (Observation F))) (s : System F G I R)
      → phase_at w (enter_fit v fit s) ≡ phase_at w s
  unfolding enter_fit set_worker
  phase-enter_fit w v fit s = ground arith

  pub phase-start_clustering :
      (w v : ℕ) (s : System F G I R) → phase_at w (start_clustering v s) ≡ phase_at w s
  unfolding start_clustering enter_cluster set_worker
  phase-start_clustering w v s = ground arith

  pub phase-count_members :
      (w v now : ℕ) (s : System F G I R) → phase_at w (count_members v now s) ≡ phase_at w s
  unfolding count_members enter_cluster set_worker
  phase-count_members w v now s = ground arith

  pub phase-start_fusion :
      (w v : ℕ) (s : System F G I R)
      → (v == w) ≡ false
      → phase_at w (start_fusion v s) ≡ phase_at w s
  unfolding start_fusion enter_fusion set_worker
  phase-start_fusion w v s other = ground arith

  pub phase-enter_fusion :
      (w v : ℕ) (phase : FusionPhase F G I) (s : System F G I R)
      → (v == w) ≡ false
      → phase_at w (enter_fusion v phase s) ≡ phase_at w s
  unfolding enter_fusion set_worker
  phase-enter_fusion w v phase s other = ground arith

  pub phase-end_fusion :
      (w v : ℕ) (s : System F G I R) → (v == w) ≡ false → phase_at w (end_fusion v s) ≡ phase_at w s
  unfolding end_fusion enter_fusion set_worker
  phase-end_fusion w v s other = ground arith

  pub left-restart :
      (w v : ℕ) (s : System F G I R) → left (phase_at w (restart v s)) ≤ left (phase_at w s)
  unfolding restart set_worker
  left-restart w v s = ground arith
