-- ===== src/Cluster/Runs.antt =====
-- How a run of the clustering job ends, and what it leaves in the tables.
use pothole_detection_server.Prelude.{
  ℕ, ◌≤◌, ◌≡◌, ◌∙◌, refl, ap, same_refl, sym, subst, Bool, true, false, List, [], arith, Text,
  length, ltb, ◌⊎◌, inl, inr, Bool-cases, Option-cases, All, map, ◌++◌, ◌∷◌, some,
}
use pothole_detection_server.Float.{Float, max_f, divide}
use pothole_detection_server.Cluster.{
  ClusterTables, Computed, RunParams, ClusterSettings, Database, ids, ClusterRun,
}
use pothole_detection_server.Cluster.Members.{Evidence, members, mean_lat, compute_clusters}
use pothole_detection_server.Cluster.Lists.{HasNoRepeat}
use pothole_detection_server.Cluster.Groups.{compute_clusters-HasNoRepeat}
use pothole_detection_server.Cluster.Job.{
  ClusterEnd, returned, raised, new_cluster_run, insert_cluster_run, match_clusters, run_params,
  write_clusters, cluster_body, run_cluster_job, update_cluster_run,
}
use pothole_detection_server.Cluster.Outcome.{IsClustered, match_clusters-IsClustered}
use pothole_detection_server.Fusion.{any_of}

module _ {F : Type 0} where
  abbrev pub run_ids : List (ClusterRun F) → List Text
  run_ids = map (λ r. r.run_id)

  -- The row of a run that has ended.
  abbrev pub completed_run : Text → RunParams F → ℕ → ℕ → ℕ → ClusterRun F
  completed_run run_id params inputs now outputs = record {
    run_id = run_id;
    params_jsonb = params;
    inputs_count = inputs;
    completed_at = some now;
    outputs_count = some outputs;
  }

  update_cluster_run-append :
      (run_id : Text) (params : RunParams F) (n now outputs : ℕ) (runs : List (ClusterRun F))
      → any_of run_id (run_ids runs) ≡ false
      → update_cluster_run run_id now outputs (runs ++ (new_cluster_run run_id params n ∷ []))
        ≡ runs ++ (completed_run run_id params n now outputs ∷ [])
  unfolding update_cluster_run any_of
  update_cluster_run-append run_id params n now outputs [] e = ground (arith, same_refl run_id)
  update_cluster_run-append run_id params n now outputs (r ∷ runs) e =
      ground (arith, update_cluster_run-append run_id params n now outputs runs)

  update_cluster_run-insert_cluster_run :
      ⦃d : Float F⦄ (run_id : Text) (params : RunParams F) (n now outputs : ℕ)
      (runs runs' : List (ClusterRun F))
      → any_of run_id (run_ids runs) ≡ false
      → insert_cluster_run run_id params n runs ≡ some runs'
      → update_cluster_run run_id now outputs runs'
        ≡ runs ++ (completed_run run_id params n now outputs ∷ [])
  unfolding insert_cluster_run
  update_cluster_run-insert_cluster_run run_id params n now outputs runs runs' e f =
      ground (arith, update_cluster_run-append run_id params n now outputs runs e)

module _ {F : Type 0} ⦃d : Float F⦄ (db : Database F) (cos_radians : F → F)
    (cfg : ClusterSettings F) (run_id : Text) (now : ℕ) (uuid : ℕ → Text) where
  -- The clusters were written, their number is returned, and the run has its row in cluster_run.
  abbrev pub IsWritten :
      List (Computed F) → RunParams F → ℕ → ClusterTables F → ClusterEnd × ClusterTables F → Type 0
  IsWritten cs params n t (end, t') =
      (end ≡ returned (length cs))
      × ((claimed : List Text) × IsClustered cs claimed t t')
      × (t'.cluster_run ≡ t.cluster_run ++ (completed_run run_id params n now (length cs) ∷ []))

  write_clusters_outcome :
      (cs : List (Computed F)) (params : RunParams F) (n : ℕ) (t : ClusterTables F)
      → All (λ c. HasNoRepeat c.member_ids) cs
      → HasNoRepeat (ids t.asset_cluster)
      → any_of run_id (run_ids t.cluster_run) ≡ false
      → let r = write_clusters db cos_radians cfg run_id now uuid cs params n t in
        (r ≡ (raised, t)) ⊎ IsWritten cs params n t r
  unfolding write_clusters
  write_clusters_outcome cs params n t distinct unique new_run =
      elim (Option-cases (insert_cluster_run run_id params n t.cluster_run)) [
        | inl refused ↦ inl (ground arith)
        | inr (runs0, added) ↦
            let started : ClusterTables F = record t { cluster_run = runs0 } in
            elim (Option-cases (match_clusters db cfg.cluster_eps_m now uuid 0 cs [] started)) [
              | inl failed ↦ inl (ground arith)
              | inr ((claimed, t1), e) ↦
                  let (done, runs) =
                    match_clusters-IsClustered db cfg.cluster_eps_m now uuid cs started t1 claimed
                      distinct unique e in
                  inr (
                    rw (write_clusters, added, e)
                      (
                        refl,
                        (
                          claimed,
                          record {
                            distinct_ids = done.distinct_ids;
                            claimed_once = done.claimed_once;
                            known = done.known;
                            same_repaired = done.same_repaired;
                            rebuilt = done.rebuilt;
                            filled = done.filled;
                            same_links = done.same_links;
                          },
                        ),
                        ap (update_cluster_run run_id now (length cs)) runs
                            ∙ update_cluster_run-insert_cluster_run run_id params n now (length cs)
                                t.cluster_run runs0 new_run added,
                      ))
            ]
      ]

  cluster_body_outcome :
      (counted fetched : Evidence F) (t : ClusterTables F)
      → HasNoRepeat (map (λ o. o.client_id) fetched.asset_observation)
      → HasNoRepeat (ids t.asset_cluster)
      → any_of run_id (run_ids t.cluster_run) ≡ false
      → let r = cluster_body db cos_radians cfg run_id now uuid counted fetched t in
        (r ≡ (raised, t))
        ⊎ (r ≡ (returned 0, t))
        ⊎ ((eps_units : F) × (lat : F) × (cfg.cluster_min_points
              ≤ length (members db cfg counted t.asset_cluster))
            × (mean_lat db cfg (members db cfg counted t.asset_cluster) ≡ some lat)
            × (divide cfg.cluster_eps_m (max_f (cos_radians lat) d.eps) ≡ some eps_units)
            × IsWritten
                (compute_clusters db cfg eps_units fetched t.asset_cluster)
                (run_params db cos_radians cfg run_id now uuid eps_units lat)
                (length (members db cfg counted t.asset_cluster))
                t
                r)
  unfolding cluster_body
  cluster_body_outcome counted fetched t observed unique new_run =
      let found = members db cfg counted t.asset_cluster in
      elim (Bool-cases (ltb (length found) cfg.cluster_min_points)) [
        | inl few ↦ inr (inl (ground arith))
        | inr enough ↦ elim (Option-cases (mean_lat db cfg found)) [
          | inl no_mean ↦ inl (ground arith)
          | inr (lat, el) ↦
              elim (Option-cases (divide cfg.cluster_eps_m (max_f (cos_radians lat) d.eps))) [
                | inl no_quotient ↦ inl (ground arith)
                | inr (eps_units, eq) ↦
                    let cs = compute_clusters db cfg eps_units fetched t.asset_cluster in
                    let params = run_params db cos_radians cfg run_id now uuid eps_units lat in
                    let whole : cluster_body db cos_radians cfg run_id now uuid counted fetched t
                        ≡ write_clusters db cos_radians cfg run_id now uuid cs params (length found)
                            t =
                      ground arith in
                    elim (write_clusters_outcome cs params (length found) t
                      (compute_clusters-HasNoRepeat db cfg eps_units fetched t.asset_cluster
                        observed)
                      unique new_run) [
                        | inl failed ↦ inl (whole ∙ failed)
                        | inr written ↦ inr (
                            inr (
                              eps_units,
                              lat,
                              ground arith,
                              el,
                              eq,
                              subst (IsWritten cs params (length found) t) (sym whole) written,
                            ))
                      ]
              ]
        ]
      ]

  -- If no observation and no cluster id stands twice and the id of the run is new, after any run of
  -- the clustering job the lock is held if and only if it was held before, and one of two holds.
  -- Either the tables are as they were, and the job raised or returned 0; or the lock was free,
  -- there were enough members, and the job returned the number of the clusters that it computed
  -- with eps over the cosine of the mean latitude: each of them claimed a row of its own in
  -- asset_cluster, which has the values of the cluster and whose links are now its members, while
  -- the links of all other rows and the repaired rows are as they were, no cluster id stands twice,
  -- and cluster_run has one more row, with the counts of the run.
  pub run_cluster_job_outcome :
      (held : Bool) (counted fetched : Evidence F) (t : ClusterTables F)
      → HasNoRepeat (map (λ o. o.client_id) fetched.asset_observation)
      → HasNoRepeat (ids t.asset_cluster)
      → any_of run_id (run_ids t.cluster_run) ≡ false
      → let (end, held', t') =
          run_cluster_job db cos_radians cfg run_id now uuid held counted fetched t in
        (held' ≡ held)
        × (((t' ≡ t) × ((end ≡ raised) ⊎ (end ≡ returned 0)))
            ⊎ ((held ≡ false)
                × ((eps_units : F) × (lat : F) × (cfg.cluster_min_points
                      ≤ length (members db cfg counted t.asset_cluster))
                    × (mean_lat db cfg (members db cfg counted t.asset_cluster) ≡ some lat)
                    × (divide cfg.cluster_eps_m (max_f (cos_radians lat) d.eps) ≡ some eps_units)
                    × IsWritten
                        (compute_clusters db cfg eps_units fetched t.asset_cluster)
                        (run_params db cos_radians cfg run_id now uuid eps_units lat)
                        (length (members db cfg counted t.asset_cluster))
                        t
                        (end, t'))))
  unfolding run_cluster_job
  run_cluster_job_outcome true counted fetched t observed unique new_run =
      (refl, inl (refl, inr refl))
  run_cluster_job_outcome false counted fetched t observed unique new_run = (
    refl,
    elim (cluster_body_outcome counted fetched t observed unique new_run) [
      | inl failed ↦ inl (rw failed (refl, inl refl))
      | inr (inl nothing) ↦ inl (rw nothing (refl, inr refl))
      | inr (inr written) ↦ inr (refl, written)
    ],
  )
