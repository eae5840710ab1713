-- ===== src/Cluster/Rows.antt =====
-- The row of asset_cluster that a computed cluster claims, and the rows of the others.
use pothole_detection_server.Prelude.{
  ℕ, ◌≡◌, refl, false, List, [], ◌∷◌, ◌++◌, arith, Text, same, ◌⊎◌, inl, inr, All,
}
use pothole_detection_server.Fusion.{any_of}
use pothole_detection_server.Cluster.{AssetCluster, Computed, ids, fresh_cluster, update_cluster}

module _ {F : Type 0} where
  -- The row of the id has what was computed for the cluster.
  abbrev pub IsFilled : Computed F → Text → List (AssetCluster F) → Type 0
  IsFilled c id = All (λ r.
      (same r.cluster_id id ≡ false)
      ⊎ ((r.centroid ≡ c.centroid)
          × (r.severity ≡ c.severity)
          × (r.confidence ≡ c.confidence)
          × (r.observation_count ≡ c.observation_count)
          × (r.distinct_devices ≡ c.distinct_devices)
          × (r.last_seen ≡ c.last_seen)))

  pub update_cluster-IsFilled :
      (id : Text) (c : Computed F) (now : ℕ) (rows : List (AssetCluster F))
      → IsFilled c id (update_cluster id c now rows)
  unfolding update_cluster
  update_cluster-IsFilled id c now [] = tt
  update_cluster-IsFilled id c now (r ∷ rows) =
      (ground arith, update_cluster-IsFilled id c now rows)

  pub update_cluster-IsFilled_other :
      (id k : Text) (c e : Computed F) (now : ℕ) (rows : List (AssetCluster F))
      → same id k ≡ false
      → IsFilled e k rows
      → IsFilled e k (update_cluster id c now rows)
  unfolding update_cluster
  update_cluster-IsFilled_other id k c e now [] ne h = tt
  update_cluster-IsFilled_other id k c e now (r ∷ rows) ne (hr, h) =
      (ground arith, update_cluster-IsFilled_other id k c e now rows ne h)

  pub append-IsFilled :
      (id : Text) (c : Computed F) (now : ℕ) (rows : List (AssetCluster F))
      → any_of id (ids rows) ≡ false
      → IsFilled c id (rows ++ (fresh_cluster id c now ∷ []))
  unfolding any_of
  append-IsFilled id c now [] e = (inr (refl, refl, refl, refl, refl, refl), tt)
  append-IsFilled id c now (r ∷ rows) e =
      (ground arith, append-IsFilled id c now rows (ground arith))

  pub append-IsFilled_other :
      (k : Text) (e : Computed F) (r : AssetCluster F) (rows : List (AssetCluster F))
      → same r.cluster_id k ≡ false
      → IsFilled e k rows
      → IsFilled e k (rows ++ (r ∷ []))
  append-IsFilled_other k e r [] ne h = (inl ne, tt)
  append-IsFilled_other k e r (q ∷ rows) ne (hq, h) = (hq, append-IsFilled_other k e r rows ne h)
