-- ===== src/Cluster/Members.antt =====
-- app/fusion/service.py, `_MEMBERS_CTE`, `_MEMBER_STATS_SQL` and `_CLUSTER_SQL`: which observations
-- are members, and the clusters that are computed of them.
use pothole_detection_server.Prelude.{
  ℕ, ◌+◌, ◌*◌, Bool, false, not, ◌&&◌, ◌||◌, Option, none, some, List, [], ◌∷◌, ltb, leb, ◌==◌,
  if◌then◌else◌, Text, codes, same, length, map,
}
use pothole_detection_server.Float.{Float, zero_f, one_f}
use pothole_detection_server.Schema.{Observation}
use pothole_detection_server.Fusion.{FusionPair, filter, sort_by, any_of}
use pothole_detection_server.Cluster.{AssetCluster, Computed, ClusterSettings, Database}

-- A row of `members`.
pub record Member (F : Type 0) : Type 0 where
  pub client_id : Text
  pub device_id : Text
  pub geom : F × F
  pub ts_utc : ℕ
  pub severity : F
  pub confidence : F

-- What a query reads: the clock of the database and the tables that other jobs write.
pub record Evidence (F : Type 0) : Type 0 where
  pub now : ℕ
  pub asset_observation : List (Observation F)
  pub fusion_pair : List (FusionPair F)

-- COALESCE(x, 0.0)
abbrev pub or_zero : {F : Type 0} ⦃d : Float F⦄ → Option F → F
or_zero none = zero_f
or_zero (some x) = x

-- `make_interval(days => $1)`, in microseconds
abbrev pub days : ℕ → ℕ
days n = 86_400_000_000 * n

-- `o.sensor_class = 'pothole' AND o.sensor_is_outlier IS NOT TRUE`
abbrev pub is_sensor_pothole : {F : Type 0} → Observation F → Bool
is_sensor_pothole o =
    (elim o.sensor_class [ none ↦ false | some cls ↦ same cls (codes "pothole") ])
    && not (elim o.sensor_is_outlier [ none ↦ false | some b ↦ b ])

module _ {F : Type 0} ⦃d : Float F⦄ (db : Database F) (cfg : ClusterSettings F) where
  -- max(fused_confidence), by event_client_id
  unfoldable pub max_fused : Text → List (FusionPair F) → Option F
  max_fused id [] = none
  max_fused id (p ∷ ps) =
      let rest = max_fused id ps in
      if same p.event_client_id id
      then some
          (elim rest [ none ↦ p.fused_confidence | some x ↦ db.greatest p.fused_confidence x ])
      else rest

  -- The two first conditions of WHERE.
  unfoldable pub qualifies : Evidence F → Observation F → Bool
  unfolding max_fused
  qualifies e o =
      ltb e.now (o.received_at + days cfg.cluster_window_days)
      && (is_sensor_pothole o
          || d.le cfg.cluster_member_min_confidence (or_zero (max_fused o.client_id e.fusion_pair)))

  -- The subquery of NOT EXISTS, for one cluster and for all.
  unfoldable pub explains : AssetCluster F → Observation F → Bool
  explains c o =
      (elim c.repaired_at [ none ↦ false | some at ↦ leb o.ts_utc at ])
      && db.within c.centroid o.geom cfg.cluster_eps_m

  unfoldable pub is_explained : List (AssetCluster F) → Observation F → Bool
  unfolding explains
  is_explained [] o = false
  is_explained (c ∷ cs) o = explains c o || is_explained cs o

  -- `_MEMBERS_CTE`
  abbrev pub member : Evidence F → Observation F → Member F
  member e o = record {
    client_id = o.client_id;
    device_id = o.device_id;
    geom = o.geom;
    ts_utc = o.ts_utc;
    severity = or_zero o.sensor_severity;
    confidence =
        db.greatest (or_zero o.sensor_p_pothole) (or_zero (max_fused o.client_id e.fusion_pair));
  }

  unfoldable pub members : Evidence F → List (AssetCluster F) → List (Member F)
  unfolding qualifies is_explained max_fused
  members e clusters =
      map (member e)
        (filter (λ o. qualifies e o && not (is_explained clusters o)) e.asset_observation)

  -- AVG(ST_Y(geom)), where `none` is NULL
  unfoldable pub mean_lat : List (Member F) → Option F
  mean_lat [] = none
  mean_lat (m ∷ ms) = some (db.avg (map (λ x. x.geom.1) (m ∷ ms)))

  -- GREATEST(m.confidence, 0.001)
  abbrev pub weight : Member F → F
  weight m = db.greatest m.confidence (d.quotient one_f (d.of_nat 1000))

  -- max(ts_utc) and count(DISTINCT device_id)
  unfoldable pub latest : List (Member F) → ℕ
  latest [] = 0
  latest (m ∷ ms) = let rest = latest ms in if ltb rest m.ts_utc then m.ts_utc else rest

  unfoldable pub count_devices : List (Member F) → ℕ
  count_devices [] = 0
  count_devices (m ∷ ms) =
      let rest = count_devices ms in
      if any_of m.device_id (map (λ x. x.device_id) ms) then rest else rest + 1

  -- The aggregates over a group, whose members are in the order of client_id.
  unfoldable pub summary : List (Member F) → Computed F
  unfolding latest count_devices
  summary ms = record {
    centroid = (
      d.quotient (db.sum (map (λ m. d.mul m.geom.0 (weight m)) ms)) (db.sum (map weight ms)),
      d.quotient (db.sum (map (λ m. d.mul m.geom.1 (weight m)) ms)) (db.sum (map weight ms)),
    );
    severity = db.median (map (λ m. m.severity) ms);
    confidence = db.avg (map (λ m. m.confidence) ms);
    observation_count = length ms;
    distinct_devices = count_devices ms;
    last_seen = latest ms;
    member_ids = map (λ m. m.client_id) ms;
    member_confidences = map (λ m. m.confidence) ms;
  }

  -- The labels of `labeled`, next to the members.
  unfoldable pub labeled : List (Member F) → List (Option ℕ) → List (ℕ × Member F)
  labeled [] ls = []
  labeled (m ∷ ms) [] = []
  labeled (m ∷ ms) (none ∷ ls) = labeled ms ls
  labeled (m ∷ ms) (some l ∷ ls) = (l, m) ∷ labeled ms ls

  -- The members of a label, in the order of client_id.
  unfoldable pub group_of : ℕ → List (ℕ × Member F) → List (Member F)
  group_of l ms =
      sort_by (λ m n. db.precedes m.client_id n.client_id)
        (map (λ x. x.1) (filter (λ x. x.0 == l) ms))

  -- The labels that are given, each once.
  unfoldable pub has_label : ℕ → List (ℕ × Member F) → Bool
  has_label l [] = false
  has_label l (x ∷ xs) = x.0 == l || has_label l xs

  unfoldable pub labels : List (ℕ × Member F) → List ℕ
  unfolding has_label
  labels [] = []
  labels (x ∷ xs) = let rest = labels xs in if has_label x.0 xs then rest else x.0 ∷ rest

  -- ORDER BY sort_key, the least client_id of the group
  unfoldable pub by_sort_key : List (Member F) → List (Member F) → Bool
  by_sort_key [] ns = false
  by_sort_key (m ∷ ms) [] = false
  by_sort_key (m ∷ ms) (n ∷ ns) = db.precedes m.client_id n.client_id

  -- `_CLUSTER_SQL`
  unfoldable pub compute_clusters : F → Evidence F → List (AssetCluster F) → List (Computed F)
  unfolding members summary labeled group_of labels by_sort_key
  compute_clusters eps_units e clusters =
      let ms = members e clusters in
      let points = db.dbscan eps_units cfg.cluster_min_points (map (λ m. m.geom) ms) in
      let pairs = labeled ms points in
      map summary (sort_by by_sort_key (map (λ l. group_of l pairs) (labels pairs)))
