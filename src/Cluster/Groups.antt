-- ===== src/Cluster/Groups.antt =====
-- The members of the computed clusters: observations that qualify and that no repaired cluster
-- explains, none of them twice in one cluster.
use pothole_detection_server.Prelude.{
  ℕ, ◌<◌, ◌≡◌, refl, subst, sym, Bool, true, false, not, ◌&&◌, Option, none, some, List, [], ◌∷◌,
  arith, ◌==◌, Text, map, ◌⊎◌, inl, inr, Bool-cases, Option-cases, All, leb,
}
use pothole_detection_server.Float.{Float}
use pothole_detection_server.Schema.{Observation}
use pothole_detection_server.Fusion.{filter, any_of}
use pothole_detection_server.Cluster.{AssetCluster, ClusterSettings, Database}
use pothole_detection_server.Cluster.Members.{
  Member, Evidence, member, qualifies, explains, is_explained, members, labeled, group_of, labels,
  summary, by_sort_key, compute_clusters,
}
use pothole_detection_server.Cluster.Lists.{
  HasNoRepeat, Has, All-map, Has-map, filter-All, sort_by-All, filter-HasNoRepeat,
  sort_by-HasNoRepeat,
}

map-map :
    {A B C : Type 0} (f : B → C) (g : A → B) (xs : List A)
    → map f (map g xs) ≡ map (λ x. f (g x)) xs
map-map f g [] = refl
map-map f g (x ∷ xs) = ground (arith, map-map f g xs)

map-All :
    {A B : Type 0} (P : B → Type 0) (f : A → B) (xs : List A)
    → All (λ x. P (f x)) xs
    → All P (map f xs)
map-All P f [] h = tt
map-All P f (x ∷ xs) (hx, h) = (hx, map-All P f xs h)

always : {A : Type 0} (P : A → Type 0) (xs : List A) → ((x : A) → P x) → All P xs
always P [] h = tt
always P (x ∷ xs) h = (h x, always P xs h)

pub self-Has :
    {A : Type 0} (R : A → A → Type 0) (xs : List A) → ((x : A) → R x x) → All (λ x. Has (R x) xs) xs
self-Has R [] r = tt
self-Has R (x ∷ xs) r = (inl (r x), All-map xs (λ y h. inr h) (self-Has R xs r))

module _ {F : Type 0} ⦃d : Float F⦄ (db : Database F) (cfg : ClusterSettings F) where
  labeled-All :
      (P : Member F → Type 0) (ms : List (Member F)) (ls : List (Option ℕ))
      → All P ms
      → All (λ x. P x.1) (labeled db cfg ms ls)
  unfolding labeled
  labeled-All P [] ls h = tt
  labeled-All P (m ∷ ms) [] h = tt
  labeled-All P (m ∷ ms) (none ∷ ls) (hm, h) = labeled-All P ms ls h
  labeled-All P (m ∷ ms) (some l ∷ ls) (hm, h) = (hm, labeled-All P ms ls h)

  any_of-labeled :
      (k : Text) (ms : List (Member F)) (ls : List (Option ℕ))
      → any_of k (map (λ m. m.client_id) ms) ≡ false
      → any_of k (map (λ x. x.1.client_id) (labeled db cfg ms ls)) ≡ false
  unfolding labeled any_of
  any_of-labeled k [] ls e = refl
  any_of-labeled k (m ∷ ms) [] e = refl
  any_of-labeled k (m ∷ ms) (none ∷ ls) e = any_of-labeled k ms ls (ground arith)
  any_of-labeled k (m ∷ ms) (some l ∷ ls) e = ground (arith, any_of-labeled k ms ls)

  labeled-HasNoRepeat :
      (ms : List (Member F)) (ls : List (Option ℕ))
      → HasNoRepeat (map (λ m. m.client_id) ms)
      → HasNoRepeat (map (λ x. x.1.client_id) (labeled db cfg ms ls))
  unfolding labeled
  labeled-HasNoRepeat [] ls h = tt
  labeled-HasNoRepeat (m ∷ ms) [] h = tt
  labeled-HasNoRepeat (m ∷ ms) (none ∷ ls) (hm, h) = labeled-HasNoRepeat ms ls h
  labeled-HasNoRepeat (m ∷ ms) (some l ∷ ls) (hm, h) =
      (any_of-labeled m.client_id ms ls hm, labeled-HasNoRepeat ms ls h)

  -- A property of all members is one of the members of every group.
  group_of-All :
      (P : Member F → Type 0) (l : ℕ) (xs : List (ℕ × Member F))
      → All (λ x. P x.1) xs
      → All P (group_of db cfg l xs)
  unfolding group_of
  group_of-All P l xs h =
      sort_by-All P (λ m n. db.precedes m.client_id n.client_id) _
        (map-All P (λ x. x.1) (filter (λ x. x.0 == l) xs)
          (All-map (filter (λ x. x.0 == l) xs) (λ x e. e.0)
            (filter-All (λ x. P x.1) (λ x. x.0 == l) xs h)))

  group_of-HasNoRepeat :
      (l : ℕ) (xs : List (ℕ × Member F))
      → HasNoRepeat (map (λ x. x.1.client_id) xs)
      → HasNoRepeat (map (λ m. m.client_id) (group_of db cfg l xs))
  unfolding group_of
  group_of-HasNoRepeat l xs h =
      sort_by-HasNoRepeat (λ m. m.client_id) (λ m n. db.precedes m.client_id n.client_id) _
        (subst HasNoRepeat (sym (map-map (λ m. m.client_id) (λ x. x.1) (filter (λ x. x.0 == l) xs)))
          (filter-HasNoRepeat (λ x. x.1.client_id) (λ x. x.0 == l) xs h))

  members-HasNoRepeat :
      (e : Evidence F) (clusters : List (AssetCluster F))
      → HasNoRepeat (map (λ o. o.client_id) e.asset_observation)
      → HasNoRepeat (map (λ m. m.client_id) (members db cfg e clusters))
  unfolding members
  members-HasNoRepeat e clusters h =
      subst HasNoRepeat
        (sym (
          map-map (λ m. m.client_id) (member db cfg e)
            (filter (λ o. qualifies db cfg e o && not (is_explained db cfg clusters o))
              e.asset_observation)))
        (filter-HasNoRepeat (λ o. o.client_id)
          (λ o. qualifies db cfg e o && not (is_explained db cfg clusters o)) e.asset_observation h)

  -- If no observation stands twice, no member stands twice in a computed cluster.
  pub compute_clusters-HasNoRepeat :
      (eps_units : F) (e : Evidence F) (clusters : List (AssetCluster F))
      → HasNoRepeat (map (λ o. o.client_id) e.asset_observation)
      → All (λ c. HasNoRepeat c.member_ids) (compute_clusters db cfg eps_units e clusters)
  unfolding compute_clusters summary
  compute_clusters-HasNoRepeat eps_units e clusters h =
      let ms = members db cfg e clusters in
      let pairs =
        labeled db cfg ms (db.dbscan eps_units cfg.cluster_min_points (map (λ m. m.geom) ms)) in
      map-All (λ c. HasNoRepeat c.member_ids) (summary db cfg) _
        (sort_by-All (λ ns. HasNoRepeat (map (λ m. m.client_id) ns)) (by_sort_key db cfg) _
          (map-All (λ ns. HasNoRepeat (map (λ m. m.client_id) ns)) (λ l. group_of db cfg l pairs)
            (labels db cfg pairs)
            (always _ (labels db cfg pairs) (λ l.
              group_of-HasNoRepeat l pairs
                (labeled-HasNoRepeat ms _ (members-HasNoRepeat e clusters h))))))

module _ {F : Type 0} ⦃d : Float F⦄ (db : Database F) (cfg : ClusterSettings F)
    (clusters : List (AssetCluster F)) where
  -- No repaired cluster explains the observation: each is not repaired, is too far, or was repaired
  -- before the observation.
  abbrev pub IsNew : Observation F → Type 0
  IsNew o =
      All
        (λ c.
          (c.repaired_at ≡ none)
          ⊎ (db.within c.centroid o.geom cfg.cluster_eps_m ≡ false)
          ⊎ ((at : ℕ) × (c.repaired_at ≡ some at) × (at < o.ts_utc)))
        clusters

  -- An observation of the client id qualifies and is not explained.
  abbrev pub ComesFrom : Evidence F → Text → Type 0
  ComesFrom e id =
      Has (λ o. (o.client_id ≡ id) × (qualifies db cfg e o ≡ true) × IsNew o) e.asset_observation

  explains_new :
      (c : AssetCluster F) (o : Observation F)
      → explains db cfg c o ≡ false
      → (c.repaired_at ≡ none)
        ⊎ (db.within c.centroid o.geom cfg.cluster_eps_m ≡ false)
        ⊎ ((at : ℕ) × (c.repaired_at ≡ some at) × (at < o.ts_utc))
  unfolding explains
  explains_new c o e = elim (Option-cases c.repaired_at) [
    | inl unrepaired ↦ inl unrepaired
    | inr (at, repaired) ↦ elim (Bool-cases (leb o.ts_utc at)) [
      | inl older ↦ inr (inl (ground arith))
      | inr newer ↦ inr (inr (at, repaired, ground arith))
    ]
  ]

module _ {F : Type 0} ⦃d : Float F⦄ (db : Database F) (cfg : ClusterSettings F) where
  is_explained-IsNew :
      (clusters : List (AssetCluster F)) (o : Observation F)
      → is_explained db cfg clusters o ≡ false
      → IsNew db cfg clusters o
  unfolding is_explained
  is_explained-IsNew [] o e = tt
  is_explained-IsNew (c ∷ cs) o e =
      (explains_new db cfg cs c o (ground arith), is_explained-IsNew cs o (ground arith))

  members-ComesFrom :
      (e : Evidence F) (clusters : List (AssetCluster F))
      → All (λ m. ComesFrom db cfg clusters e m.client_id) (members db cfg e clusters)
  unfolding members
  members-ComesFrom e clusters =
      let p : Observation F → Bool =
        λ o. qualifies db cfg e o && not (is_explained db cfg clusters o) in
      map-All (λ m. ComesFrom db cfg clusters e m.client_id) (member db cfg e) _
        (All-map (filter p e.asset_observation)
          (λ o h.
            Has-map e.asset_observation
              (λ x w. rw (← w) (refl, ground arith, is_explained-IsNew clusters o (ground arith)))
              h.0)
          (filter-All (λ o. Has (λ x. o ≡ x) e.asset_observation) p e.asset_observation
            (self-Has (λ o x. o ≡ x) e.asset_observation (λ o. refl))))

  -- Every member of a computed cluster is an observation that qualifies and that no repaired
  -- cluster explains, so that a repaired cluster does not come back from the detections before its
  -- repair.
  pub compute_clusters-ComesFrom :
      (eps_units : F) (e : Evidence F) (clusters : List (AssetCluster F))
      → All
          (λ c. All (ComesFrom db cfg clusters e) c.member_ids)
          (compute_clusters db cfg eps_units e clusters)
  unfolding compute_clusters summary
  compute_clusters-ComesFrom eps_units e clusters =
      let ms = members db cfg e clusters in
      let pairs =
        labeled db cfg ms (db.dbscan eps_units cfg.cluster_min_points (map (λ m. m.geom) ms)) in
      let from = ComesFrom db cfg clusters e in
      map-All (λ c. All from c.member_ids) (summary db cfg) _
        (sort_by-All (λ ns. All from (map (λ m. m.client_id) ns)) (by_sort_key db cfg) _
          (map-All (λ ns. All from (map (λ m. m.client_id) ns)) (λ l. group_of db cfg l pairs)
            (labels db cfg pairs)
            (always _ (labels db cfg pairs) (λ l.
              map-All from (λ m. m.client_id) _
                (group_of-All db cfg (λ m. from m.client_id) l pairs
                  (labeled-All db cfg (λ m. from m.client_id) ms _
                    (members-ComesFrom e clusters)))))))
