-- ===== src/System/Locks.antt =====
-- The advisory locks: a worker is in a job if and only if it holds the lock of the job.
use pothole_detection_server.Prelude.{
  ℕ, ◌≡◌, ◌∙◌, refl, ap, sym, Bool, true, false, ◌==◌, Option, none, some, List, arith,
}
use pothole_detection_server.Routes.{Server}
use pothole_detection_server.Schema.{Observation}
use pothole_detection_server.System.{
  System, FusionPhase, fusion_idle, fusion_locked, model_loaded, scored, ClusterPhase, cluster_idle,
  cluster_locked, members_counted, set_worker, put_server, enter_fusion, end_fusion, enter_cluster,
  end_cluster, enter_fit, start_fusion, start_clustering, release, restart, count_members,
}

abbrev pub in_fusion : {F G I : Type 0} → FusionPhase F G I → Bool
in_fusion fusion_idle = false
in_fusion fusion_locked = true
in_fusion (model_loaded m) = true
in_fusion (scored m) = true

abbrev pub in_cluster : {F : Type 0} → ClusterPhase F → Bool
in_cluster cluster_idle = false
in_cluster cluster_locked = true
in_cluster (members_counted e) = true

abbrev pub holds : ℕ → Option ℕ → Bool
holds w none = false
holds w (some v) = v == w

holds-eq : (w : ℕ) (lock : Option ℕ) → holds w lock ≡ true → lock ≡ some w
holds-eq w none h = absurd (ground arith)
holds-eq w (some v) h = ground arith

module _ {F G I R : Type 0} where
  -- A worker is in a job if and only if it holds its lock.
  abbrev pub IsExclusive : System F G I R → Type 0
  IsExclusive s =
      (w : ℕ)
      → (in_fusion (s.workers w).fusion ≡ holds w s.fusion_lock)
        × (in_cluster (s.workers w).cluster ≡ holds w s.cluster_lock)

  pub enter_fusion-IsExclusive :
      (w : ℕ) (phase : FusionPhase F G I) (s : System F G I R)
      → IsExclusive s
      → in_fusion (s.workers w).fusion ≡ true
      → in_fusion phase ≡ true
      → IsExclusive (enter_fusion w phase s)
  unfolding enter_fusion set_worker
  enter_fusion-IsExclusive w phase s h i j v = ground (arith, h v, h w)

  pub end_fusion-IsExclusive :
      (w : ℕ) (s : System F G I R)
      → IsExclusive s
      → in_fusion (s.workers w).fusion ≡ true
      → IsExclusive (end_fusion w s)
  unfolding end_fusion enter_fusion set_worker
  end_fusion-IsExclusive w s h i v =
      let lock = holds-eq w s.fusion_lock (sym (h w).0 ∙ i) in ground (arith, lock, h v, h w)

  pub start_fusion-IsExclusive :
      (w : ℕ) (s : System F G I R) → IsExclusive s → IsExclusive (start_fusion w s)
  unfolding start_fusion enter_fusion set_worker
  start_fusion-IsExclusive w s h v = ground (arith, h v, h w)

  pub restart-IsExclusive : (w : ℕ) (s : System F G I R) → IsExclusive s → IsExclusive (restart w s)
  unfolding restart set_worker release
  restart-IsExclusive w s h v = ground (arith, h v, h w)

  enter_cluster-IsExclusive :
      (w : ℕ) (phase : ClusterPhase F) (s : System F G I R)
      → IsExclusive s
      → in_cluster (s.workers w).cluster ≡ true
      → in_cluster phase ≡ true
      → IsExclusive (enter_cluster w phase s)
  unfolding enter_cluster set_worker
  enter_cluster-IsExclusive w phase s h i j v = ground (arith, h v, h w)

  pub end_cluster-IsExclusive :
      (w : ℕ) (s : System F G I R)
      → IsExclusive s
      → in_cluster (s.workers w).cluster ≡ true
      → IsExclusive (end_cluster w s)
  unfolding end_cluster enter_cluster set_worker
  end_cluster-IsExclusive w s h i v =
      let lock = holds-eq w s.cluster_lock (sym (h w).1 ∙ i) in ground (arith, lock, h v, h w)

  pub start_clustering-IsExclusive :
      (w : ℕ) (s : System F G I R) → IsExclusive s → IsExclusive (start_clustering w s)
  unfolding start_clustering enter_cluster set_worker
  start_clustering-IsExclusive w s h v = ground (arith, h v, h w)

  pub put_server-IsExclusive :
      (w : ℕ) (server : Server F R) (s : System F G I R)
      → IsExclusive s
      → IsExclusive (put_server w server s)
  unfolding put_server set_worker
  put_server-IsExclusive w server s h v = ground (arith, h v, h w)

  pub enter_fit-IsExclusive :
      (w : ℕ) (fit : Option (List (Observation F))) (s : System F G I R)
      → IsExclusive s
      → IsExclusive (enter_fit w fit s)
  unfolding enter_fit set_worker
  enter_fit-IsExclusive w fit s h v = ground (arith, h v, h w)

  pub count_members-IsExclusive :
      (w now : ℕ) (s : System F G I R) → IsExclusive s → IsExclusive (count_members w now s)
  unfolding count_members
  count_members-IsExclusive w now s h = go (s.workers w).cluster refl
    where
      go :
          (phase : ClusterPhase F)
          → (s.workers w).cluster ≡ phase
          → IsExclusive (count_members w now s)
      go cluster_idle e = rw (count_members, e) h
      go cluster_locked e =
          rw (count_members, e) (enter_cluster-IsExclusive w _ s h (ap in_cluster e) refl)
      go (members_counted before) e = rw (count_members, e) h
