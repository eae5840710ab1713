-- ===== src/Cluster/Job.antt =====
-- app/fusion/service.py, `run_cluster_job`: the gate, the match-or-insert loop, and the lock. An
-- error of the database other than the refusal of an inserted row is left out: it rolls back as
-- that one does.
use pothole_detection_server.Prelude.{
  ℕ, suc, Bool, false, not, ◌&&◌, ◌||◌, Option, none, some, List, [], ◌∷◌, ◌++◌, ltb, if◌then◌else◌,
  Text, codes, same, length, map,
}
use pothole_detection_server.Float.{Float, max_f, divide}
use pothole_detection_server.Cluster.{
  ClusterLink, RunParams, ClusterRun, ClusterTables, Computed, ClusterSettings, Database,
  find_existing, update_cluster, insert_cluster, delete_links, insert_link,
}
use pothole_detection_server.Fusion.{any_of}
use pothole_detection_server.Cluster.Members.{Evidence, members, mean_lat, compute_clusters}

module _ {F : Type 0} where
  -- `for mid, mc in zip(c["member_ids"], c["member_confidences"])`, as rows of the table
  unfoldable pub links_of : Text → List Text → List F → List (ClusterLink F)
  links_of id [] cs = []
  links_of id (m ∷ ms) [] = []
  links_of id (m ∷ ms) (c ∷ cs) =
      record { cluster_id = id; member_id = m; kind = codes "observation"; fused_confidence = c }
      ∷ links_of id ms cs

  unfoldable pub insert_links : List (ClusterLink F) → List (ClusterLink F) → List (ClusterLink F)
  insert_links [] table = table
  insert_links (l ∷ ls) table = insert_links ls (insert_link l table)

  -- The links of a cluster, rebuilt.
  unfoldable pub rebuild_links : Text → Computed F → List (ClusterLink F) → List (ClusterLink F)
  unfolding links_of insert_links
  rebuild_links id c table =
      insert_links (links_of id c.member_ids c.member_confidences) (delete_links id table)

  -- `json.dumps` writes NaN and the infinities as tokens that the cast to JSONB refuses.
  abbrev pub finite_params : ⦃d : Float F⦄ → RunParams F → Bool
  finite_params ⦃d⦄ p =
      (d.is_finite p.eps_m && d.is_finite p.eps_units_3857)
      && (d.is_finite p.member_min_confidence && d.is_finite p.mean_lat)

  abbrev pub new_cluster_run : Text → RunParams F → ℕ → ClusterRun F
  new_cluster_run run_id params inputs = record {
    run_id = run_id;
    params_jsonb = params;
    inputs_count = inputs;
    completed_at = none;
    outputs_count = none;
  }

  -- `_INSERT_CLUSTER_RUN_SQL`; `none` is a conflict with the PRIMARY KEY, or a refusal by the cast.
  unfoldable pub insert_cluster_run :
      ⦃d : Float F⦄ → Text → RunParams F → ℕ → List (ClusterRun F) → Option (List (ClusterRun F))
  insert_cluster_run run_id params inputs runs =
      if any_of run_id (map (λ r. r.run_id) runs) || not (finite_params params)
      then none
      else some (runs ++ (new_cluster_run run_id params inputs ∷ []))

  -- `_UPDATE_CLUSTER_RUN_SQL`

  unfoldable pub update_cluster_run : Text → ℕ → ℕ → List (ClusterRun F) → List (ClusterRun F)
  update_cluster_run run_id now outputs = map (λ r.
      if same r.run_id run_id
      then record r { completed_at = some now; outputs_count = some outputs }
      else r)

-- `now` is the clock of the database in the transaction, `uuid i` is `uuid4().hex` for the i-th
-- cluster.
module _ {F : Type 0} ⦃d : Float F⦄ (db : Database F) (eps_m : F) (now : ℕ) (uuid : ℕ → Text) where
  -- One computed cluster: its id and the tables, or `none` for an exception.
  unfoldable pub match_cluster :
      ℕ → Computed F → List Text → ClusterTables F → Option (Text × ClusterTables F)
  match_cluster i c matched t = elim (find_existing db c.centroid eps_m matched t.asset_cluster) [
    | some id ↦ some (
      id,
      record t {
        asset_cluster = update_cluster id c now t.asset_cluster;
        observation_cluster_link = rebuild_links id c t.observation_cluster_link;
      },
    )
    | none ↦
        let id = codes "clu_" ++ uuid i in
        elim (insert_cluster id c now t.asset_cluster) [
          | none ↦ none
          | some rows ↦ some (
            id,
            record t {
              asset_cluster = rows;
              observation_cluster_link = rebuild_links id c t.observation_cluster_link;
            },
          )
        ]
  ]

  -- The loop over the computed clusters: `matched` after it, and the tables.
  unfoldable pub match_clusters :
      ℕ → List (Computed F) → List Text → ClusterTables F → Option (List Text × ClusterTables F)
  unfolding match_cluster
  match_clusters i [] matched t = some (matched, t)
  match_clusters i (c ∷ cs) matched t = elim (match_cluster i c matched t) [
    | none ↦ none
    | some (id, t') ↦ match_clusters (suc i) cs (matched ++ (id ∷ [])) t'
  ]

-- How the job ends: the number that it returns, or an exception.
pub data ClusterEnd : Type 0 where
  returned : ℕ → ClusterEnd
  raised : ClusterEnd

-- `cos_radians` is `math.cos(math.radians(x))`.
module _ {F : Type 0} ⦃d : Float F⦄ (db : Database F) (cos_radians : F → F)
    (cfg : ClusterSettings F) (run_id : Text) (now : ℕ) (uuid : ℕ → Text) where
  abbrev pub run_params : F → F → RunParams F
  run_params eps_units lat = record {
    eps_m = cfg.cluster_eps_m;
    eps_units_3857 = eps_units;
    min_points = cfg.cluster_min_points;
    window_days = cfg.cluster_window_days;
    member_min_confidence = cfg.cluster_member_min_confidence;
    mean_lat = lat;
  }

  -- The transaction: what it ends with and the tables, which an exception rolls back.
  unfoldable pub write_clusters :
      List (Computed F) → RunParams F → ℕ → ClusterTables F → ClusterEnd × ClusterTables F
  write_clusters clusters params n_members t =
      elim (insert_cluster_run run_id params n_members t.cluster_run) [
        | none ↦ (raised, t)
        | some runs ↦
            elim (match_clusters db cfg.cluster_eps_m now uuid 0 clusters []
              (record t { cluster_run = runs })) [
                | none ↦ (raised, t)
                | some (matched, t') ↦ (
                  returned (length clusters),
                  record t' {
                    cluster_run = update_cluster_run run_id now (length clusters) t'.cluster_run;
                  },
                )
              ]
      ]

  -- The body under the lock; `counted` is what the first query reads and `fetched` what the second.
  unfoldable pub cluster_body :
      Evidence F → Evidence F → ClusterTables F → ClusterEnd × ClusterTables F
  unfolding write_clusters
  cluster_body counted fetched t =
      let found = members db cfg counted t.asset_cluster in
      if ltb (length found) cfg.cluster_min_points
      then (returned 0, t)
      else elim (mean_lat db cfg found) [
        | none ↦ (raised, t)
        | some lat ↦ elim (divide cfg.cluster_eps_m (max_f (cos_radians lat) d.eps)) [
          | none ↦ (raised, t)
          | some eps_units ↦
              write_clusters (compute_clusters db cfg eps_units fetched t.asset_cluster)
                (run_params eps_units lat) (length found) t
        ]
      ]

  -- `run_cluster_job`: how it ends, whether the lock is held after it, and the tables.
  unfoldable pub run_cluster_job :
      Bool → Evidence F → Evidence F → ClusterTables F → ClusterEnd × Bool × ClusterTables F
  unfolding cluster_body
  run_cluster_job held counted fetched t =
      if held
      then (returned 0, held, t)
      else (let (end, t') = cluster_body counted fetched t in (end, false, t'))
