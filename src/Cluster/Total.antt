-- ===== src/Cluster/Total.antt =====
-- With fresh ids, a run of the clustering job that has enough members writes its clusters.
use pothole_detection_server.Prelude.{
  ℕ, suc, ◌≤◌, ◌<◌, ◌≡◌, refl, true, false, some, List, [], ◌∷◌, ◌++◌, arith, Text, codes, same,
  length, ltb, inl, inr, Bool-cases, Option-cases,
}
use pothole_detection_server.Float.{Float, zero_f, max_f, divide}
use pothole_detection_server.Float.Laws.{IsFloat}
use pothole_detection_server.Fusion.{any_of}
use pothole_detection_server.Cluster.{
  AssetCluster, ClusterTables, Computed, ClusterSettings, Database, ids, find_existing,
  update_cluster, insert_cluster, fresh_cluster,
}
use pothole_detection_server.Cluster.Lists.{any_of-append}
use pothole_detection_server.Cluster.Claims.{ids-update_cluster, ids-append}
use pothole_detection_server.Cluster.Members.{Member, Evidence, members, mean_lat, compute_clusters}
use pothole_detection_server.Cluster.Runs.{run_ids}
use pothole_detection_server.Cluster.Job.{
  returned, new_cluster_run, insert_cluster_run, finite_params, rebuild_links, match_cluster,
  match_clusters, run_params, write_clusters, cluster_body, run_cluster_job,
}

-- `"clu_" + uuid4().hex`
abbrev pub new_id : (ℕ → Text) → ℕ → Text
new_id uuid i = codes "clu_" ++ uuid i

-- No two calls of `uuid4` give the same text, and none gives the id of a row.
abbrev pub AreFresh : {F : Type 0} → (ℕ → Text) → ℕ → List (AssetCluster F) → Type 0
AreFresh uuid i rows = (j : ℕ) → i ≤ j → any_of (new_id uuid j) (ids rows) ≡ false

module _ (uuid : ℕ → Text) where
  new_id_other :
      (i j : ℕ)
      → ((m n : ℕ) → uuid m ≡ uuid n → m ≡ n)
      → i < j
      → same (new_id uuid i) (new_id uuid j) ≡ false
  new_id_other i j unique l = elim (Bool-cases (same (new_id uuid i) (new_id uuid j))) [
    | inr other ↦ other
    | inl equal ↦
        let texts : new_id uuid i ≡ new_id uuid j = ground arith in
        let hexes : uuid i ≡ uuid j = cc in absurd (omega (arith, unique i j hexes))
  ]

module _ {F : Type 0} (uuid : ℕ → Text) where
  AreFresh-insert :
      (i : ℕ) (rows : List (AssetCluster F)) (r : AssetCluster F)
      → ((m n : ℕ) → uuid m ≡ uuid n → m ≡ n)
      → r.cluster_id ≡ new_id uuid i
      → AreFresh uuid i rows
      → AreFresh uuid (suc i) (rows ++ (r ∷ []))
  unfolding any_of
  AreFresh-insert i rows r unique named fresh j l =
      let old = fresh j (omega arith) in
      let other = new_id_other uuid i j unique (omega arith) in
      rw
        (
          ids-append rows (r ∷ []),
          any_of-append (new_id uuid j) (ids rows) (r.cluster_id ∷ []),
          old,
          named,
          other,
        )
        refl

module _ {F : Type 0} ⦃d : Float F⦄ (db : Database F) (eps_m : F) (now : ℕ) (uuid : ℕ → Text) where
  match_cluster_total :
      (i : ℕ) (c : Computed F) (matched : List Text) (t : ClusterTables F)
      → ((m n : ℕ) → uuid m ≡ uuid n → m ≡ n)
      → AreFresh uuid i t.asset_cluster
      → (id : Text) × (t' : ClusterTables F) × (match_cluster db eps_m now uuid i c matched t
          ≡ some (id, t'))
        × AreFresh uuid (suc i) t'.asset_cluster
  unfolding match_cluster insert_cluster
  match_cluster_total i c matched t unique fresh =
      elim (Option-cases (find_existing db c.centroid eps_m matched t.asset_cluster)) [
        | inr (id, found) ↦ (
          id,
          record t {
            asset_cluster = update_cluster id c now t.asset_cluster;
            observation_cluster_link = rebuild_links id c t.observation_cluster_link;
          },
          rw (match_cluster, found) refl,
          λ j l. rw (ids-update_cluster id c now t.asset_cluster) (fresh j (omega arith)),
        )
        | inl nothing ↦
            let id = new_id uuid i in
            (
              id,
              record t {
                asset_cluster = t.asset_cluster ++ (fresh_cluster id c now ∷ []);
                observation_cluster_link = rebuild_links id c t.observation_cluster_link;
              },
              rw (match_cluster, nothing, insert_cluster, fresh i (omega arith)) refl,
              AreFresh-insert uuid i t.asset_cluster (fresh_cluster (new_id uuid i) c now) unique
                  refl fresh,
            )
      ]

  match_clusters_total :
      (i : ℕ) (cs : List (Computed F)) (matched : List Text) (t : ClusterTables F)
      → ((m n : ℕ) → uuid m ≡ uuid n → m ≡ n)
      → AreFresh uuid i t.asset_cluster
      → (end : List Text × ClusterTables F) × (match_clusters db eps_m now uuid i cs matched t
          ≡ some end)
  unfolding match_clusters
  match_clusters_total i [] matched t unique fresh = ((matched, t), refl)
  match_clusters_total i (c ∷ cs) matched t unique fresh =
      let (id, t', e, fresh') = match_cluster_total i c matched t unique fresh in
      let (end, e') = match_clusters_total (suc i) cs (matched ++ (id ∷ [])) t' unique fresh' in
      (end, rw (match_clusters, e) e')

-- `max(math.cos(...), 1e-6)` is never zero.
divide_guarded :
    {F : Type 0} ⦃d : Float F⦄ (laws : IsFloat F) (x c : F)
    → (q : F) × (divide x (max_f c d.eps) ≡ some q)
divide_guarded ⦃d⦄ laws x c = elim (Bool-cases (d.eq (max_f c d.eps) zero_f)) [
  | inr usable ↦ (d.quotient x (max_f c d.eps), ground arith)
  | inl zero ↦
      let not_below = laws.lt-not_le zero_f d.eps laws.zero-lt-eps in
      absurd (elim (Bool-cases (d.lt c d.eps)) [
        | inl small ↦
            let eps_zero : d.eq d.eps zero_f ≡ true = ground arith in
            let (below, _) = laws.eq-le d.eps zero_f eps_zero in (ground arith)
        | inr large ↦
            let cos_zero : d.eq c zero_f ≡ true = ground arith in
            let (below, above) = laws.eq-le c zero_f cos_zero in
            let (self, _) = laws.refl_of_le c zero_f below in
            let (_, eps_self) =
              laws.refl_of_le zero_f d.eps (laws.lt-le zero_f d.eps laws.zero-lt-eps) in
            let lower = laws.not_lt-le c d.eps self eps_self large in
            let below_eps = laws.le_trans d.eps c zero_f lower below in (ground arith)
      ])
]

mean_lat_total :
    {F : Type 0} ⦃d : Float F⦄ (db : Database F) (cfg : ClusterSettings F) (ms : List (Member F))
    → 0 < length ms
    → (lat : F) × (mean_lat db cfg ms ≡ some lat)
unfolding mean_lat
mean_lat_total db cfg [] l = absurd (omega arith)
mean_lat_total db cfg (m ∷ ms) l = (_, refl)

module _ {F : Type 0} ⦃d : Float F⦄ (laws : IsFloat F) (db : Database F) (cos_radians : F → F)
    (cfg : ClusterSettings F) (run_id : Text) (now : ℕ) (uuid : ℕ → Text) where
  pub run_cluster_job_total :
      (counted fetched : Evidence F) (t : ClusterTables F)
      → ((m n : ℕ) → uuid m ≡ uuid n → m ≡ n)
      → AreFresh uuid 0 t.asset_cluster
      → 0 < cfg.cluster_min_points
      → cfg.cluster_min_points ≤ length (members db cfg counted t.asset_cluster)
      → any_of run_id (run_ids t.cluster_run) ≡ false
      → ((eps_units lat : F)
          → mean_lat db cfg (members db cfg counted t.asset_cluster) ≡ some lat
          → divide cfg.cluster_eps_m (max_f (cos_radians lat) d.eps) ≡ some eps_units
          → finite_params (run_params db cos_radians cfg run_id now uuid eps_units lat) ≡ true)
      → (eps_units : F) × ((run_cluster_job db cos_radians cfg run_id now uuid false counted fetched
            t).0
          ≡ returned (length (compute_clusters db cfg eps_units fetched t.asset_cluster)))
  unfolding run_cluster_job cluster_body write_clusters insert_cluster_run
  run_cluster_job_total counted fetched t unique fresh positive enough new finite =
      let found = members db cfg counted t.asset_cluster in
      let (lat, el) = mean_lat_total db cfg found (omega arith) in
      let (eps_units, eq) = divide_guarded laws cfg.cluster_eps_m (cos_radians lat) in
      let cs = compute_clusters db cfg eps_units fetched t.asset_cluster in
      let params = run_params db cos_radians cfg run_id now uuid eps_units lat in
      let all_finite = finite eps_units lat el eq in
      let runs = t.cluster_run ++ (new_cluster_run run_id params (length found) ∷ []) in
      let added : insert_cluster_run run_id params (length found) t.cluster_run ≡ some runs =
        ground (arith, new, all_finite) in
      let started : ClusterTables F = record t { cluster_run = runs } in
      let (end, e) =
        match_clusters_total db cfg.cluster_eps_m now uuid 0 cs [] started unique fresh in
      let open_gate : ltb (length found) cfg.cluster_min_points ≡ false = ground arith in
      (
        eps_units,
        rw (run_cluster_job, cluster_body, open_gate, el, eq, write_clusters, added, e) refl,
      )
