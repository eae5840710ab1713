-- ===== src/Cluster/Outcome.antt =====
-- What a run of the clustering job leaves.
use pothole_detection_server.Prelude.{
  ℕ, suc, ◌≡◌, ◌∙◌, refl, ap, subst, sym, true, false, some, List, [], ◌∷◌, ◌++◌, arith, Text, same,
  inl, inr, Option-cases, All,
}
use mathlib.Core.List.{append_assoc, append-nil}
use pothole_detection_server.Float.{Float}
use pothole_detection_server.Fusion.{any_of}
use pothole_detection_server.Cluster.{
  ClusterLink, ClusterTables, Computed, Database, ids, AssetCluster,
}
use pothole_detection_server.Cluster.Lists.{HasNoRepeat}
use pothole_detection_server.Cluster.Claims.{IsClaimed, repaired}
use pothole_detection_server.Cluster.Turn.{match_cluster-IsTurn}
use pothole_detection_server.Cluster.Links.{
  links_at, links_at-rebuild_links, links_at-rebuild_links_other,
}
use pothole_detection_server.Cluster.Job.{links_of, match_cluster, match_clusters}
use pothole_detection_server.Cluster.Rows.{IsFilled}

module _ {F : Type 0} where
  -- The links of the n-th id are the members of the n-th cluster, for as many ids as clusters.
  abbrev pub HasLinks : List (Computed F) → List Text → List (ClusterLink F) → Type 0
  HasLinks [] [] table = Unit
  HasLinks [] (id ∷ claimed) table = ⊥
  HasLinks (c ∷ cs) [] table = ⊥
  HasLinks (c ∷ cs) (id ∷ claimed) table =
      (links_at id table ≡ links_of id c.member_ids c.member_confidences)
      × HasLinks cs claimed table

  -- The row of the n-th id has what was computed for the n-th cluster.
  abbrev pub HasRows : List (Computed F) → List Text → List (AssetCluster F) → Type 0
  HasRows [] [] rows = Unit
  HasRows [] (id ∷ claimed) rows = ⊥
  HasRows (c ∷ cs) [] rows = ⊥
  HasRows (c ∷ cs) (id ∷ claimed) rows = IsFilled c id rows × HasRows cs claimed rows

  -- The tables after the loop, where the clusters were given the ids in `claimed`.
  pub record IsClustered (cs : List (Computed F)) (claimed : List Text) (t t' : ClusterTables F)
      : Type 0 where
    pub distinct_ids : HasNoRepeat (ids t'.asset_cluster)
    pub claimed_once : HasNoRepeat claimed
    pub known : All (λ id. any_of id (ids t'.asset_cluster) ≡ true) claimed
    pub same_repaired : repaired t'.asset_cluster ≡ repaired t.asset_cluster
    pub filled : HasRows cs claimed t'.asset_cluster
    pub rebuilt : HasLinks cs claimed t'.observation_cluster_link
    pub same_links :
        (id : Text)
        → any_of id claimed ≡ false
        → links_at id t'.observation_cluster_link ≡ links_at id t.observation_cluster_link

  -- The loop from the claims of the clusters before.
  abbrev IsLoop :
      List (Computed F) → List Text → ClusterTables F → List Text × ClusterTables F → Type 0
  IsLoop cs matched t (all, t') =
      (claimed : List Text) × (all ≡ matched ++ claimed)
      × IsClaimed all t'.asset_cluster
      × (repaired t'.asset_cluster ≡ repaired t.asset_cluster)
      × HasLinks cs claimed t'.observation_cluster_link
      × ((id : Text)
          → any_of id claimed ≡ false
          → links_at id t'.observation_cluster_link ≡ links_at id t.observation_cluster_link)
      × (t'.cluster_run ≡ t.cluster_run)
      × HasRows cs claimed t'.asset_cluster
      × ((k : Text) (e : Computed F)
          → any_of k claimed ≡ false
          → IsFilled e k t.asset_cluster
          → IsFilled e k t'.asset_cluster)

any_of_head : (k id : Text) (xs : List Text) → any_of k (id ∷ xs) ≡ false → same id k ≡ false
unfolding any_of
any_of_head k id xs h = ground arith

any_of_tail : (k id : Text) (xs : List Text) → any_of k (id ∷ xs) ≡ false → any_of k xs ≡ false
unfolding any_of
any_of_tail k id xs h = ground arith

later_unclaimed :
    (xs ys : List Text) (k : Text) → HasNoRepeat ((xs ++ (k ∷ [])) ++ ys) → any_of k ys ≡ false
unfolding any_of
later_unclaimed [] ys k (e, _) = e
later_unclaimed (x ∷ xs) ys k (_, h) = later_unclaimed xs ys k h

module _ {F : Type 0} ⦃d : Float F⦄ (db : Database F) (eps_m : F) (now : ℕ) (uuid : ℕ → Text) where
  match_clusters-IsLoop :
      (i : ℕ) (cs : List (Computed F)) (matched : List Text) (t : ClusterTables F)
      (end : List Text × ClusterTables F)
      → All (λ c. HasNoRepeat c.member_ids) cs
      → IsClaimed matched t.asset_cluster
      → match_clusters db eps_m now uuid i cs matched t ≡ some end
      → IsLoop cs matched t end
  unfolding match_clusters
  match_clusters-IsLoop i [] matched t end distinct state e =
      let start : List Text × ClusterTables F = (matched, t) in
      let whole : start ≡ end = cc in
      subst (IsLoop [] matched t) {x = start} {y = end} whole
        ([], sym (append-nil matched), state, refl, tt, λ id h. refl, refl, tt, λ k e h g. g)
  match_clusters-IsLoop i (c ∷ cs) matched t end (dc, distinct) state e =
      elim (Option-cases (match_cluster db eps_m now uuid i c matched t)) [
        | inl failed ↦ absurd (ground arith)
        | inr ((id, t1), e1) ↦
            let (state1, unclaimed, kept, links, runs, filled1, fills1) =
              match_cluster-IsTurn db eps_m now uuid i c matched t (id, t1) state e1 in
            let rest : match_clusters db eps_m now uuid (suc i) cs (matched ++ (id ∷ [])) t1
                ≡ some end =
              ground arith in
            let (claimed, all, claims, kept', rebuilt, others, runs', filled, fills) =
              match_clusters-IsLoop (suc i) cs (matched ++ (id ∷ [])) t1 end distinct state1 rest in
            let fresh =
              later_unclaimed matched claimed id (subst HasNoRepeat all claims.claimed_once) in
            (
              id ∷ claimed,
              all ∙ append_assoc matched (id ∷ []) claimed,
              claims,
              kept' ∙ kept,
              (
                others id fresh
                    ∙ ap (links_at id) links
                    ∙ links_at-rebuild_links id c t.observation_cluster_link dc,
                rebuilt,
              ),
              λ k h.
                  others k (any_of_tail k id claimed h)
                  ∙ ap (links_at k) links
                  ∙ links_at-rebuild_links_other id k c t.observation_cluster_link
                      (any_of_head k id claimed h),
              runs' ∙ runs,
              (fills id c fresh filled1, filled),
              λ k e h g.
                  fills k e (any_of_tail k id claimed h)
                    (fills1 k e (any_of_head k id claimed h) g),
            )
      ]

  -- The loop from no claims.
  pub match_clusters-IsClustered :
      (cs : List (Computed F)) (t t' : ClusterTables F) (claimed : List Text)
      → All (λ c. HasNoRepeat c.member_ids) cs
      → HasNoRepeat (ids t.asset_cluster)
      → match_clusters db eps_m now uuid 0 cs [] t ≡ some (claimed, t')
      → IsClustered cs claimed t t' × (t'.cluster_run ≡ t.cluster_run)
  match_clusters-IsClustered cs t t' claimed distinct unique e =
      let (claimed', all, claims, kept, rebuilt, others, runs, filled, _) =
        match_clusters-IsLoop 0 cs [] t (claimed, t') distinct
          (record { distinct_ids = unique; claimed_once = tt; known = tt }) e in
      (
        record {
          distinct_ids = claims.distinct_ids;
          claimed_once = claims.claimed_once;
          known = claims.known;
          same_repaired = kept;
          filled = subst (λ ids. HasRows cs ids t'.asset_cluster) (sym all) filled;
          rebuilt = subst (λ ids. HasLinks cs ids t'.observation_cluster_link) (sym all) rebuilt;
          same_links = λ id h. others id (subst (λ ids. any_of id ids ≡ false) all h);
        },
        runs,
      )
