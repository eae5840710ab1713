-- ===== src/Cluster/Examples.antt =====
-- A run of the clustering job over three observations, next to a repaired cluster and another one.
use pothole_detection_server.Prelude.{
  ℕ, ◌≤◌, ◌≡◌, refl, true, false, Option, none, some, [], ◌∷◌, arith, Text, codes, dec_text, length,
  map, ◌⊎◌, All, subst,
}
use pothole_detection_server.Float.{zero_f, max_f, divide}
use pothole_detection_server.Float.Fixed.{Fixed, plus, unit, fixed_float, Fixed-IsFloat}
use pothole_detection_server.Schema.{Observation}
use pothole_detection_server.Events.{event_row}
use pothole_detection_server.Samples.{event, stamp, phone}
use pothole_detection_server.Fusion.{any_of, filter}
use pothole_detection_server.Cluster.{AssetCluster, ClusterTables, ClusterSettings, Database}
use pothole_detection_server.Cluster.Members.{
  Evidence, members, qualifies, is_explained, max_fused, explains, compute_clusters, mean_lat,
}
use pothole_detection_server.Cluster.Groups.{ComesFrom, compute_clusters-ComesFrom}
use pothole_detection_server.Cluster.Job.{
  returned, raised, finite_params, run_cluster_job, run_params,
}
use pothole_detection_server.Cluster.Runs.{IsWritten, run_cluster_job_outcome}
use pothole_detection_server.Cluster.Total.{run_cluster_job_total}

abbrev seen : Text → ℕ → Observation Fixed
seen id at = record (event_row phone at (event id) stamp) { sensor_class = some (codes "pothole") }

abbrev evidence : Evidence Fixed
evidence = record {
  now = 9;
  asset_observation = seen (codes "e1") 5 ∷ seen (codes "e2") 6 ∷ seen (codes "e3") 7 ∷ [];
  fusion_pair = [];
}

abbrev row : Text → Option ℕ → AssetCluster Fixed
row id repaired_at = record {
  cluster_id = id;
  asset_type = codes "pothole";
  centroid = (zero_f, zero_f);
  severity = zero_f;
  confidence = zero_f;
  observation_count = 3;
  distinct_devices = 1;
  last_seen = 2;
  source = codes "crowd";
  repaired_at = repaired_at;
  updated_at = 2;
}

abbrev tables : ClusterTables Fixed
tables = record {
  asset_cluster = row (codes "gone") (some 3) ∷ row (codes "old") none ∷ [];
  observation_cluster_link = [];
  cluster_run = [];
}

-- All places are one place, and all points are one cluster.
abbrev db : Database Fixed
db = record {
  precedes = λ a b. false;
  within = λ a b m. true;
  distance = λ a b. zero_f;
  greatest = λ a b. a;
  avg = λ xs. plus unit;
  sum = λ xs. plus unit;
  median = λ xs. zero_f;
  dbscan = λ eps n points. map (λ p. some 0) points;
}

abbrev cos_radians : Fixed → Fixed
cos_radians x = plus unit

abbrev cfg : ClusterSettings Fixed
cfg = record {
  cluster_window_days = 30;
  cluster_member_min_confidence = plus 500_000;
  cluster_eps_m = plus 25_000_000;
  cluster_min_points = 3;
}

abbrev uuid : ℕ → Text
uuid i = i ∷ []

compute_clusters-ComesFrom_example :
    All
      (λ c. All (ComesFrom db cfg tables.asset_cluster evidence) c.member_ids)
      (compute_clusters db cfg (plus unit) evidence tables.asset_cluster)
compute_clusters-ComesFrom_example =
    compute_clusters-ComesFrom db cfg (plus unit) evidence tables.asset_cluster

run_cluster_job_outcome_example :
    let (end, held', t') =
      run_cluster_job db cos_radians cfg (codes "r1") 9 uuid false evidence evidence tables in
    (held' ≡ false)
    × (((t' ≡ tables) × ((end ≡ raised) ⊎ (end ≡ returned 0)))
        ⊎ ((false ≡ false)
            × ((eps_units : Fixed) × (lat : Fixed) × (3
                  ≤ length (members db cfg evidence tables.asset_cluster))
                × (mean_lat db cfg (members db cfg evidence tables.asset_cluster) ≡ some lat)
                × (divide (plus 25_000_000) (max_f (cos_radians lat) (plus 1)) ≡ some eps_units)
                × IsWritten db cos_radians cfg
                    (codes "r1")
                    9
                    uuid
                    (compute_clusters db cfg eps_units evidence tables.asset_cluster)
                    (run_params db cos_radians cfg (codes "r1") 9 uuid eps_units lat)
                    (length (members db cfg evidence tables.asset_cluster))
                    tables
                    (end, t'))))
unfolding any_of dec_text event_row
run_cluster_job_outcome_example =
    run_cluster_job_outcome db cos_radians cfg (codes "r1") 9 uuid false evidence evidence tables
      (refl, (refl, (refl, tt))) (refl, (refl, tt)) refl

-- What the run logs of itself is finite.
finite_run :
    (eps lat : Fixed)
    → mean_lat db cfg (members db cfg evidence tables.asset_cluster) ≡ some lat
    → divide (plus 25_000_000) (max_f (cos_radians lat) (plus 1)) ≡ some eps
    → finite_params (run_params db cos_radians cfg (codes "r1") 9 uuid eps lat) ≡ true
unfolding mean_lat any_of dec_text event_row members qualifies is_explained explains max_fused
    filter
finite_run eps lat l e =
    let logged = λ (x y : Fixed).
      finite_params (run_params db cos_radians cfg (codes "r1") 9 uuid x y) ≡ true in
    subst (λ (o : Option Fixed). elim o [ none ↦ Unit {0} | some y ↦ logged eps y ]) l
      (subst (λ (o : Option Fixed). elim o [ none ↦ Unit {0} | some x ↦ logged x (plus unit) ]) e
        refl)

run_cluster_job_total_example :
    (eps_units : Fixed) × ((run_cluster_job db cos_radians cfg
        (codes "r1")
        9
        uuid
        false
        evidence
        evidence
        tables).0
      ≡ returned (length (compute_clusters db cfg eps_units evidence tables.asset_cluster)))
unfolding any_of dec_text event_row members qualifies is_explained explains max_fused filter
run_cluster_job_total_example =
    run_cluster_job_total Fixed-IsFloat db cos_radians cfg (codes "r1") 9 uuid evidence evidence
      tables (λ m n e. cc) (λ j l. refl) (omega arith) (omega arith) refl finite_run
