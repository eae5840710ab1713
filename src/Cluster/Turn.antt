-- ===== src/Cluster/Turn.antt =====
-- One turn of the loop over the computed clusters.
use pothole_detection_server.Prelude.{
  ℕ, ◌≡◌, refl, subst, true, false, some, List, [], ◌∷◌, ◌++◌, arith, Text, codes, same_refl, inl,
  inr, Bool-cases, Option-cases, same,
}
use pothole_detection_server.Float.{Float}
use pothole_detection_server.Fusion.{filter, any_of}
use pothole_detection_server.Cluster.{
  AssetCluster, ClusterTables, Computed, Database, ids, is_candidate, closer, find_existing,
  fresh_cluster, update_cluster, insert_cluster,
}
use pothole_detection_server.Cluster.Lists.{
  Has, Has-map, filter-All, sort_by-All, any_of-append, append-HasNoRepeat,
}
use pothole_detection_server.Cluster.Groups.{self-Has}
use pothole_detection_server.Cluster.Job.{rebuild_links, match_cluster}
use pothole_detection_server.Cluster.Claims.{
  repaired, HasOpen, IsClaimed, first_id-All, HasOpen-ids, ids-update_cluster,
  repaired-update_cluster, ids-append, repaired-append, known-append, All-append, unknown_unclaimed,
}
use pothole_detection_server.Cluster.Rows.{
  IsFilled, update_cluster-IsFilled, update_cluster-IsFilled_other, append-IsFilled,
  append-IsFilled_other,
}

module _ {F : Type 0} ⦃d : Float F⦄ (db : Database F) (eps_m : F) where
  -- The row that is found is not repaired and is not claimed yet.
  find_existing_found :
      (point : F × F) (matched : List Text) (rows : List (AssetCluster F)) (id : Text)
      → find_existing db point eps_m matched rows ≡ some id
      → HasOpen id rows × (any_of id matched ≡ false)
  unfolding find_existing is_candidate
  find_existing_found point matched rows id e =
      let (r, (here, candidate), named) =
        first_id-All (λ r. Has (λ x. r ≡ x) rows × (is_candidate db point eps_m matched r ≡ true)) _
          id
          (sort_by-All (λ r. Has (λ x. r ≡ x) rows × (is_candidate db point eps_m matched r ≡ true))
            (closer db point) (filter (is_candidate db point eps_m matched) rows)
            (filter-All (λ r. Has (λ x. r ≡ x) rows) (is_candidate db point eps_m matched) rows
              (self-Has (λ r x. r ≡ x) rows (λ r. refl))))
          e in
      (Has-map rows (λ x w. rw (← w) (named, ground arith)) here, ground arith)

module _ {F : Type 0} where
  IsClaimed-update_cluster :
      (matched : List Text) (rows : List (AssetCluster F)) (id : Text) (c : Computed F) (now : ℕ)
      → IsClaimed matched rows
      → HasOpen id rows
      → any_of id matched ≡ false
      → IsClaimed (matched ++ (id ∷ [])) (update_cluster id c now rows)
  IsClaimed-update_cluster matched rows id c now state named unclaimed = record {
    distinct_ids = rw (ids-update_cluster id c now rows) state.distinct_ids;
    claimed_once = append-HasNoRepeat matched id state.claimed_once unclaimed;
    known = rw (ids-update_cluster id c now rows) (
        All-append (λ k. any_of k (ids rows) ≡ true) matched id state.known
          (HasOpen-ids id rows named));
  }

  IsClaimed-insert_cluster :
      (matched : List Text) (rows : List (AssetCluster F)) (r : AssetCluster F)
      → IsClaimed matched rows
      → any_of r.cluster_id (ids rows) ≡ false
      → IsClaimed (matched ++ (r.cluster_id ∷ [])) (rows ++ (r ∷ []))
  unfolding any_of
  IsClaimed-insert_cluster matched rows r state fresh = record {
    distinct_ids =
        rw (ids-append rows (r ∷ []))
          (append-HasNoRepeat (ids rows) r.cluster_id state.distinct_ids fresh);
    claimed_once =
        append-HasNoRepeat matched r.cluster_id state.claimed_once
          (unknown_unclaimed matched rows r.cluster_id state.known fresh);
    known =
        All-append (λ k. any_of k (ids (rows ++ (r ∷ []))) ≡ true) matched r.cluster_id
          (known-append matched rows (r ∷ []) state.known)
          (rw
            (
              ids-append rows (r ∷ []),
              any_of-append r.cluster_id (ids rows) (r.cluster_id ∷ []),
              fresh,
              same_refl r.cluster_id,
            )
            refl);
  }

  -- One turn of the loop: it keeps the state of the loop and the repaired rows, claims an id that
  -- was not claimed, rebuilds the links of that id, and fills its row and no other.
  abbrev pub IsTurn : Computed F → List Text → ClusterTables F → Text × ClusterTables F → Type 0
  IsTurn c matched t (id, t') =
      IsClaimed (matched ++ (id ∷ [])) t'.asset_cluster
      × (any_of id matched ≡ false)
      × (repaired t'.asset_cluster ≡ repaired t.asset_cluster)
      × (t'.observation_cluster_link ≡ rebuild_links id c t.observation_cluster_link)
      × (t'.cluster_run ≡ t.cluster_run)
      × IsFilled c id t'.asset_cluster
      × ((k : Text) (e : Computed F)
          → same id k ≡ false
          → IsFilled e k t.asset_cluster
          → IsFilled e k t'.asset_cluster)

module _ {F : Type 0} ⦃d : Float F⦄ (db : Database F) (eps_m : F) (now : ℕ) (uuid : ℕ → Text) where
  pub match_cluster-IsTurn :
      (i : ℕ) (c : Computed F) (matched : List Text) (t : ClusterTables F)
      (turn : Text × ClusterTables F)
      → IsClaimed matched t.asset_cluster
      → match_cluster db eps_m now uuid i c matched t ≡ some turn
      → IsTurn c matched t turn
  unfolding match_cluster insert_cluster
  match_cluster-IsTurn i c matched t turn state e =
      elim (Option-cases (find_existing db c.centroid eps_m matched t.asset_cluster)) [
        | inr (id, found) ↦
            let (named, unclaimed) =
              find_existing_found db eps_m c.centroid matched t.asset_cluster id found in
            let after : Text × ClusterTables F = (
              id,
              record t {
                asset_cluster = update_cluster id c now t.asset_cluster;
                observation_cluster_link = rebuild_links id c t.observation_cluster_link;
              },
            ) in
            let whole : after ≡ turn = ground arith in
            subst (IsTurn c matched t) {x = after} {y = turn} whole (
              IsClaimed-update_cluster matched t.asset_cluster id c now state named unclaimed,
              unclaimed,
              repaired-update_cluster id c now t.asset_cluster state.distinct_ids named,
              refl,
              refl,
              update_cluster-IsFilled id c now t.asset_cluster,
              λ k e. update_cluster-IsFilled_other id k c e now t.asset_cluster,
            )
        | inl nothing ↦
            let id = codes "clu_" ++ uuid i in
            elim (Bool-cases (any_of id (ids t.asset_cluster))) [
              | inl taken ↦ absurd (ground arith)
              | inr fresh ↦
                  let row = fresh_cluster id c now in
                  let after : Text × ClusterTables F = (
                    id,
                    record t {
                      asset_cluster = t.asset_cluster ++ (row ∷ []);
                      observation_cluster_link = rebuild_links id c t.observation_cluster_link;
                    },
                  ) in
                  let whole : after ≡ turn = ground arith in
                  subst (IsTurn c matched t) {x = after} {y = turn} whole (
                    IsClaimed-insert_cluster matched t.asset_cluster row state fresh,
                    unknown_unclaimed matched t.asset_cluster id state.known fresh,
                    repaired-append t.asset_cluster row refl,
                    refl,
                    refl,
                    append-IsFilled id c now t.asset_cluster fresh,
                    λ k e. append-IsFilled_other k e row t.asset_cluster,
                  )
            ]
      ]
