-- ===== src/Cluster/Keeps.antt =====
-- No run of the clustering job gives two clusters one id.
use pothole_detection_server.Prelude.{
  ℕ, List, [], Text, length, ltb, map, inl, inr, Bool-cases, Option-cases, All,
}
use pothole_detection_server.Float.{Float, max_f, divide}
use pothole_detection_server.Cluster.{
  ClusterTables, ClusterSettings, Computed, RunParams, Database, ids,
}
use pothole_detection_server.Cluster.Members.{Evidence, members, mean_lat, compute_clusters}
use pothole_detection_server.Cluster.Lists.{HasNoRepeat}
use pothole_detection_server.Cluster.Groups.{compute_clusters-HasNoRepeat}
use pothole_detection_server.Cluster.Job.{
  insert_cluster_run, match_clusters, run_params, write_clusters, cluster_body,
}
use pothole_detection_server.Cluster.Outcome.{match_clusters-IsClustered}

module _ {F : Type 0} ⦃d : Float F⦄ (db : Database F) (cos_radians : F → F)
    (cfg : ClusterSettings F) (run_id : Text) (now : ℕ) (uuid : ℕ → Text) where
  ids-write_clusters :
      (cs : List (Computed F)) (params : RunParams F) (n : ℕ) (t : ClusterTables F)
      → All (λ c. HasNoRepeat c.member_ids) cs
      → HasNoRepeat (ids t.asset_cluster)
      → HasNoRepeat
          (ids (write_clusters db cos_radians cfg run_id now uuid cs params n t).1.asset_cluster)
  unfolding write_clusters
  ids-write_clusters cs params n t distinct unique =
      elim (Option-cases (insert_cluster_run run_id params n t.cluster_run)) [
        | inl refused ↦ rw (refused, write_clusters) unique
        | inr (runs, added) ↦
            let started : ClusterTables F = record t { cluster_run = runs } in
            elim (Option-cases (match_clusters db cfg.cluster_eps_m now uuid 0 cs [] started)) [
              | inl failed ↦ rw (added, failed, write_clusters) unique
              | inr ((claimed, t1), e) ↦
                  let (done, _) =
                    match_clusters-IsClustered db cfg.cluster_eps_m now uuid cs started t1 claimed
                      distinct unique e in
                  rw (added, e, write_clusters) done.distinct_ids
            ]
      ]

  -- If no observation and no cluster id stands twice, no cluster id stands twice after the job,
  -- whatever becomes of it.
  pub ids-cluster_body :
      (before fetched : Evidence F) (t : ClusterTables F)
      → HasNoRepeat (map (λ o. o.client_id) fetched.asset_observation)
      → HasNoRepeat (ids t.asset_cluster)
      → HasNoRepeat
          (ids (cluster_body db cos_radians cfg run_id now uuid before fetched t).1.asset_cluster)
  unfolding cluster_body
  ids-cluster_body before fetched t observed unique =
      let found = members db cfg before t.asset_cluster in
      elim (Bool-cases (ltb (length found) cfg.cluster_min_points)) [
        | inl few ↦ rw (few, cluster_body) unique
        | inr enough ↦ elim (Option-cases (mean_lat db cfg found)) [
          | inl no_mean ↦ rw (enough, no_mean, cluster_body) unique
          | inr (lat, el) ↦
              elim (Option-cases (divide cfg.cluster_eps_m (max_f (cos_radians lat) d.eps))) [
                | inl no_quotient ↦ rw (enough, el, no_quotient, cluster_body) unique
                | inr (eps_units, eq) ↦
                    rw (enough, el, eq, cluster_body)
                      (ids-write_clusters
                        (compute_clusters db cfg eps_units fetched t.asset_cluster)
                        (run_params db cos_radians cfg run_id now uuid eps_units lat) (length found)
                        t
                        (compute_clusters-HasNoRepeat db cfg eps_units fetched t.asset_cluster
                          observed)
                        unique)
              ]
        ]
      ]
