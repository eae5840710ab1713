-- ===== src/Cluster.antt =====
-- app/fusion/service.py, the clustering job: the tables that it writes, and its statements on them.
pub mod Members
pub mod Job
pub mod Lists
pub mod Groups
pub mod Claims
pub mod Rows
pub mod Turn
pub mod Links
pub mod Outcome
pub mod Runs
pub mod Total
pub mod Keeps
mod Examples
use pothole_detection_server.Prelude.{
  ℕ, Bool, true, false, not, ◌&&◌, ◌||◌, Option, none, some, List, [], ◌∷◌, ◌++◌, if◌then◌else◌,
  Text, codes, same, map,
}
use pothole_detection_server.Float.{Float}
use pothole_detection_server.Fusion.{filter, sort_by, any_of, is_null}

-- A row of asset_cluster.
pub record AssetCluster (F : Type 0) : Type 0 where
  pub cluster_id : Text
  pub asset_type : Text
  pub centroid : F × F
  pub severity : F
  pub confidence : F
  pub observation_count : ℕ
  pub distinct_devices : ℕ
  pub last_seen : ℕ
  pub source : Text
  pub repaired_at : Option ℕ
  pub updated_at : ℕ

-- A row of observation_cluster_link.
pub record ClusterLink (F : Type 0) : Type 0 where
  pub cluster_id : Text
  pub member_id : Text
  pub kind : Text
  pub fused_confidence : F

-- `params_jsonb`
pub record RunParams (F : Type 0) : Type 0 where
  pub eps_m : F
  pub eps_units_3857 : F
  pub min_points : ℕ
  pub window_days : ℕ
  pub member_min_confidence : F
  pub mean_lat : F

-- A row of cluster_run.
pub record ClusterRun (F : Type 0) : Type 0 where
  pub run_id : Text
  pub params_jsonb : RunParams F
  pub inputs_count : ℕ
  pub completed_at : Option ℕ
  pub outputs_count : Option ℕ

-- The tables that the job writes.
pub record ClusterTables (F : Type 0) : Type 0 where
  pub asset_cluster : List (AssetCluster F)
  pub observation_cluster_link : List (ClusterLink F)
  pub cluster_run : List (ClusterRun F)

-- A row of the result of `_CLUSTER_SQL`.
pub record Computed (F : Type 0) : Type 0 where
  pub centroid : F × F
  pub severity : F
  pub confidence : F
  pub observation_count : ℕ
  pub distinct_devices : ℕ
  pub last_seen : ℕ
  pub member_ids : List Text
  pub member_confidences : List F

-- The settings of config.py that the job reads.
pub record ClusterSettings (F : Type 0) : Type 0 where
  pub cluster_window_days : ℕ
  pub cluster_member_min_confidence : F
  pub cluster_eps_m : F
  pub cluster_min_points : ℕ

-- What the statements call of PostgreSQL and PostGIS: the order of texts, ST_DWithin, ST_Distance,
-- GREATEST, the aggregates AVG, SUM and `percentile_cont(0.5)`, and ST_ClusterDBSCAN over the
-- points in Web Mercator, a label for each point that is in a cluster.
pub record Database (F : Type 0) : Type 0 where
  pub precedes : Text → Text → Bool
  pub within : F × F → F × F → F → Bool
  pub distance : F × F → F × F → F
  pub greatest : F → F → F
  pub avg : List F → F
  pub sum : List F → F
  pub median : List F → F
  pub dbscan : F → ℕ → List (F × F) → List (Option ℕ)

-- LIMIT 1
unfoldable pub first_id : {F : Type 0} → List (AssetCluster F) → Option Text
first_id [] = none
first_id (c ∷ cs) = some c.cluster_id

module _ {F : Type 0} ⦃d : Float F⦄ (db : Database F) where
  -- The condition of `_FIND_EXISTING_SQL`.
  unfoldable pub is_candidate : F × F → F → List Text → AssetCluster F → Bool
  is_candidate point eps_m matched c =
      is_null c.repaired_at
      && (not (any_of c.cluster_id matched) && db.within c.centroid point eps_m)

  -- Its ORDER BY.
  unfoldable pub closer : F × F → AssetCluster F → AssetCluster F → Bool
  closer point c e =
      let m = db.distance c.centroid point in
      let m' = db.distance e.centroid point in
      d.lt m m' || (d.eq m m' && db.precedes c.cluster_id e.cluster_id)

  -- `_FIND_EXISTING_SQL`
  unfoldable pub find_existing : F × F → F → List Text → List (AssetCluster F) → Option Text
  unfolding is_candidate closer first_id
  find_existing point eps_m matched rows =
      first_id (sort_by (closer point) (filter (is_candidate point eps_m matched) rows))

module _ {F : Type 0} where
  -- `_UPDATE_CLUSTER_SQL`, on a row of the id
  abbrev pub refreshed : Computed F → ℕ → AssetCluster F → AssetCluster F
  refreshed c now r = record r {
    centroid = c.centroid;
    severity = c.severity;
    confidence = c.confidence;
    observation_count = c.observation_count;
    distinct_devices = c.distinct_devices;
    last_seen = c.last_seen;
    updated_at = now;
  }

  unfoldable pub update_cluster :
      Text → Computed F → ℕ → List (AssetCluster F) → List (AssetCluster F)
  update_cluster id c now = map (λ r. if same r.cluster_id id then refreshed c now r else r)

  -- `_INSERT_CLUSTER_SQL`, with the defaults of the table
  abbrev pub fresh_cluster : Text → Computed F → ℕ → AssetCluster F
  fresh_cluster id c now = record {
    cluster_id = id;
    asset_type = codes "pothole";
    centroid = c.centroid;
    severity = c.severity;
    confidence = c.confidence;
    observation_count = c.observation_count;
    distinct_devices = c.distinct_devices;
    last_seen = c.last_seen;
    source = codes "crowd";
    repaired_at = none;
    updated_at = now;
  }

  abbrev pub ids : List (AssetCluster F) → List Text
  ids = map (λ r. r.cluster_id)

  -- `none` is a UniqueViolationError
  unfoldable pub insert_cluster :
      Text → Computed F → ℕ → List (AssetCluster F) → Option (List (AssetCluster F))
  insert_cluster id c now rows =
      if any_of id (ids rows) then none else some (rows ++ (fresh_cluster id c now ∷ []))

  -- `_DELETE_LINKS_SQL`
  unfoldable pub delete_links : Text → List (ClusterLink F) → List (ClusterLink F)
  delete_links id = filter (λ l. not (same l.cluster_id id))

  abbrev pub same_link : ClusterLink F → ClusterLink F → Bool
  same_link l m =
      same l.cluster_id m.cluster_id && (same l.member_id m.member_id && same l.kind m.kind)

  -- `_INSERT_LINK_SQL`
  unfoldable pub insert_link : ClusterLink F → List (ClusterLink F) → List (ClusterLink F)
  insert_link l [] = l ∷ []
  insert_link l (m ∷ ms) =
      let rest = insert_link l ms in
      if same_link m l then record m { fused_confidence = l.fused_confidence } ∷ ms else m ∷ rest
