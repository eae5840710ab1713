-- ===== src/Cluster/Claims.antt =====
-- What one computed cluster does to asset_cluster: it claims a row that no other cluster of the run
-- has claimed, and touches no repaired one.
use pothole_detection_server.Prelude.{
  ℕ, ◌≡◌, refl, subst, true, false, not, some, List, [], ◌∷◌, ◌++◌, arith, Text, same, inl, inr,
  Bool-cases, All,
}
use pothole_detection_server.Fusion.{filter, any_of, is_null}
use pothole_detection_server.Cluster.{AssetCluster, Computed, ids, first_id, update_cluster}
use pothole_detection_server.Cluster.Lists.{HasNoRepeat, Has, any_of-append}

-- The rows that are repaired.
abbrev pub repaired : {F : Type 0} → List (AssetCluster F) → List (AssetCluster F)
repaired = filter (λ r. not (is_null r.repaired_at))

-- A row that the id names and that is not repaired.
abbrev pub HasOpen : {F : Type 0} → Text → List (AssetCluster F) → Type 0
HasOpen id = Has (λ r. (r.cluster_id ≡ id) × (is_null r.repaired_at ≡ true))

-- The state of the loop: every id names one row, and every claimed id names one and was claimed
-- once.
pub record IsClaimed {F : Type 0} (matched : List Text) (rows : List (AssetCluster F))
    : Type 0 where
  pub distinct_ids : HasNoRepeat (ids rows)
  pub claimed_once : HasNoRepeat matched
  pub known : All (λ id. any_of id (ids rows) ≡ true) matched

pub All-append :
    (P : Text → Type 0) (xs : List Text) (k : Text) → All P xs → P k → All P (xs ++ (k ∷ []))
All-append P [] k h hk = (hk, tt)
All-append P (x ∷ xs) k (hx, h) hk = (hx, All-append P xs k h hk)

module _ {F : Type 0} where
  pub first_id-All :
      (Q : AssetCluster F → Type 0) (rows : List (AssetCluster F)) (id : Text)
      → All Q rows
      → first_id rows ≡ some id
      → (r : AssetCluster F) × Q r × (r.cluster_id ≡ id)
  unfolding first_id
  first_id-All Q [] id h e = absurd (cc)
  first_id-All Q (r ∷ rows) id (hr, h) e = (r, hr, cc)

  pub HasOpen-ids :
      (id : Text) (rows : List (AssetCluster F)) → HasOpen id rows → any_of id (ids rows) ≡ true
  unfolding any_of
  HasOpen-ids id [] h = elim h [ ]
  HasOpen-ids id (r ∷ rows) (inl (e, _)) = ground arith
  HasOpen-ids id (r ∷ rows) (inr h) = ground (arith, HasOpen-ids id rows h)

  pub ids-update_cluster :
      (id : Text) (c : Computed F) (now : ℕ) (rows : List (AssetCluster F))
      → ids (update_cluster id c now rows) ≡ ids rows
  unfolding update_cluster
  ids-update_cluster id c now [] = refl
  ids-update_cluster id c now (r ∷ rows) = ground (arith, ids-update_cluster id c now rows)

  update_cluster_other :
      (id : Text) (c : Computed F) (now : ℕ) (rows : List (AssetCluster F))
      → any_of id (ids rows) ≡ false
      → update_cluster id c now rows ≡ rows
  unfolding update_cluster any_of
  update_cluster_other id c now [] e = refl
  update_cluster_other id c now (r ∷ rows) e = ground (arith, update_cluster_other id c now rows)

  pub repaired-update_cluster :
      (id : Text) (c : Computed F) (now : ℕ) (rows : List (AssetCluster F))
      → HasNoRepeat (ids rows)
      → HasOpen id rows
      → repaired (update_cluster id c now rows) ≡ repaired rows
  unfolding update_cluster filter
  repaired-update_cluster id c now [] h open_row = refl
  repaired-update_cluster id c now (r ∷ rows) (hr, h) (inl (e, unrepaired)) =
      let rest =
        update_cluster_other id c now rows (subst (λ k. any_of k (ids rows) ≡ false) e hr) in
      ground (arith, rest)
  repaired-update_cluster id c now (r ∷ rows) (hr, h) (inr later) =
      let named = HasOpen-ids id rows later in
      elim (Bool-cases (same r.cluster_id id)) [
        | inl same_id ↦ absurd (ground arith)
        | inr other ↦ ground (arith, repaired-update_cluster id c now rows h later)
      ]

  pub ids-append : (rows more : List (AssetCluster F)) → ids (rows ++ more) ≡ ids rows ++ ids more
  ids-append [] more = refl
  ids-append (r ∷ rows) more = ground (arith, ids-append rows more)

  pub repaired-append :
      (rows : List (AssetCluster F)) (r : AssetCluster F)
      → is_null r.repaired_at ≡ true
      → repaired (rows ++ (r ∷ [])) ≡ repaired rows
  unfolding filter
  repaired-append [] r e = ground arith
  repaired-append (q ∷ rows) r e = ground (arith, repaired-append rows r e)

  pub known-append :
      (matched : List Text) (rows more : List (AssetCluster F))
      → All (λ id. any_of id (ids rows) ≡ true) matched
      → All (λ id. any_of id (ids (rows ++ more)) ≡ true) matched
  known-append [] rows more h = tt
  known-append (id ∷ matched) rows more (hid, h) = (
    rw (ids-append rows more, any_of-append id (ids rows) (ids more), hid) refl,
    known-append matched rows more h,
  )

  pub unknown_unclaimed :
      (matched : List Text) (rows : List (AssetCluster F)) (id : Text)
      → All (λ k. any_of k (ids rows) ≡ true) matched
      → any_of id (ids rows) ≡ false
      → any_of id matched ≡ false
  unfolding any_of
  unknown_unclaimed [] rows id h e = refl
  unknown_unclaimed (k ∷ matched) rows id (hk, h) e =
      ground (arith, unknown_unclaimed matched rows id h e)
