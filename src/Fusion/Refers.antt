-- ===== src/Fusion/Refers.antt =====
-- The pairs refer to rows of the tables, and the candidates of a run are of rows of the tables.
use pothole_detection_server.Prelude.{
  ◌≡◌, Bool, subst, true, Option, none, some, List, [], ◌∷◌, arith, Text, ℕ, same_refl, map, inl,
  inr, Bool-cases, Option-cases, All,
}
use pothole_detection_server.Float.{Float}
use pothole_detection_server.Schema.{Observation, Frame}
use pothole_detection_server.Engine.{Engine, fuse}
use pothole_detection_server.Fusion.{
  FusionPair, JobSettings, any_of, nearest_step, nearest_from, pairing,
}
use pothole_detection_server.Fusion.Run.{
  same_pair, upsert_pair, fusion_input, fused_pair, fuse_pairs,
}
use pothole_detection_server.Fusion.Pairs.{IsKeyed, upsert_pair-IsKeyed}
use pothole_detection_server.Fusion.Ids.{Grows, observation_ids, frame_ids}

-- Every pair is of an observation and a frame with these ids.
abbrev pub AreOf : {F : Type 0} → List Text → List Text → List (FusionPair F) → Type 0
AreOf events frames =
    All (λ p. (any_of p.event_client_id events ≡ true) × (any_of p.frame_client_id frames ≡ true))

module _ {F : Type 0} where
  pub AreOf-Grows :
      {es es' fs fs' : List Text} (ps : List (FusionPair F))
      → Grows es es'
      → Grows fs fs'
      → AreOf es fs ps
      → AreOf es' fs' ps
  AreOf-Grows [] g h a = tt
  AreOf-Grows (p ∷ ps) g h ((e, f), a) =
      ((g.stays p.event_client_id e, h.stays p.frame_client_id f), AreOf-Grows ps g h a)

  upsert_pair-AreOf :
      (es fs : List Text) (p : FusionPair F) (ps : List (FusionPair F))
      → any_of p.event_client_id es ≡ true
      → any_of p.frame_client_id fs ≡ true
      → AreOf es fs ps
      → AreOf es fs (upsert_pair p ps)
  unfolding upsert_pair
  upsert_pair-AreOf es fs p [] e f a = ((e, f), tt)
  upsert_pair-AreOf es fs p (q ∷ ps) e f (h, a) =
      elim (Bool-cases (same_pair q p.event_client_id p.frame_client_id)) [
        | inl here ↦ rw (here, upsert_pair) ((e, f), a)
        | inr there ↦ rw (there, upsert_pair) (h, upsert_pair-AreOf es fs p ps e f a)
      ]

module _ {F : Type 0} ⦃d : Float F⦄ (distance : F × F → F × F → F) (to_ms : ℕ → ℕ → F)
    (runtime_ms : F) (engine : Engine F) (run_id : Text) (es fs : List Text) where
  -- The loop over the candidates keeps the key of fusion_pair and what its rows refer to.
  pub fuse_pairs-AreOf :
      (candidates : List (Frame F × Observation F)) (before after : List (FusionPair F))
      → All (λ x. (any_of x.1.client_id es ≡ true) × (any_of x.0.client_id fs ≡ true)) candidates
      → fuse_pairs distance to_ms runtime_ms engine run_id candidates before ≡ some after
      → IsKeyed before
      → AreOf es fs before
      → IsKeyed after × AreOf es fs after
  unfolding fuse_pairs fused_pair
  fuse_pairs-AreOf [] before after known e key refs =
      let done : before ≡ after = ground arith in
      (subst IsKeyed done key, subst (AreOf es fs) done refs)
  fuse_pairs-AreOf ((f, o) ∷ candidates) before after ((ko, kf), known) e key refs =
      elim (Option-cases (fuse engine runtime_ms (fusion_input distance to_ms f o))) [
        | inl bad ↦ absurd (ground arith)
        | inr (out, good) ↦
            let p = fused_pair distance to_ms run_id f o out in
            fuse_pairs-AreOf candidates (upsert_pair p before) after known
              (rw (fuse_pairs, good) at e) (upsert_pair-IsKeyed p before key)
              (upsert_pair-AreOf es fs p before ko kf refs)
      ]

module _ {F : Type 0} ⦃d : Float F⦄ (precedes : Text → Text → Bool) (distance : F × F → F × F → F)
    (within : F × F → F × F → F → Bool) (cfg : JobSettings F) where
  -- The id is that of the observation chosen so far, or stands in the rest of the table.
  abbrev Stands : List Text → Option (Observation F) → Type 0
  Stands es none = Unit
  Stands es (some o) = any_of o.client_id es ≡ true

  nearest_step-Stands :
      (es : List Text) (f : Frame F) (best : Option (Observation F)) (o : Observation F)
      → Stands es best
      → any_of o.client_id es ≡ true
      → Stands es (nearest_step precedes distance within cfg f best o)
  unfolding nearest_step
  nearest_step-Stands es f none o h ho = ground arith
  nearest_step-Stands es f (some b) o h ho = ground arith

  nearest_from-Stands :
      (es : List Text) (f : Frame F) (best : Option (Observation F)) (os : List (Observation F))
      → Stands es best
      → All (λ o. any_of o.client_id es ≡ true) os
      → Stands es (nearest_from precedes distance within cfg f best os)
  unfolding nearest_from
  nearest_from-Stands es f best [] h a = h
  nearest_from-Stands es f best (o ∷ os) h (ho, a) =
      nearest_from-Stands es f (nearest_step precedes distance within cfg f best o) os
        (nearest_step-Stands es f best o h ho) a

  pairing-Stand :
      (es fs ids : List Text) (os : List (Observation F)) (gs : List (Frame F))
      → All (λ o. any_of o.client_id es ≡ true) os
      → All (λ f. any_of f.client_id fs ≡ true) gs
      → All
          (λ x. (any_of x.1.client_id es ≡ true) × (any_of x.0.client_id fs ≡ true))
          (pairing precedes distance within cfg ids os gs)
  unfolding pairing
  pairing-Stand es fs ids os [] a b = tt
  pairing-Stand es fs ids os (f ∷ gs) a (hf, b) =
      let rest = pairing-Stand es fs ids os gs a b in
      elim (Bool-cases (any_of f.client_id ids)) [
        | inr out ↦ rw (out, pairing) rest
        | inl batch ↦ elim (Option-cases (nearest_from precedes distance within cfg f none os)) [
          | inl alone ↦ rw (batch, pairing, alone) rest
          | inr (o, e) ↦
              rw (batch, pairing, e)
                ((subst (Stands es) e (nearest_from-Stands es f none os tt a), hf), rest)
        ]
      ]

module _ {A : Type 0} (key : A → Text) where
  any_of-more :
      (k : Text) (x : A) (xs : List A)
      → any_of k (map key xs) ≡ true
      → any_of k (map key (x ∷ xs)) ≡ true
  unfolding any_of
  any_of-more k x xs h = ground arith

  All-more :
      (x : A) (xs ys : List A)
      → All (λ y. any_of (key y) (map key xs) ≡ true) ys
      → All (λ y. any_of (key y) (map key (x ∷ xs)) ≡ true) ys
  All-more x xs [] h = tt
  All-more x xs (y ∷ ys) (hy, h) = (any_of-more (key y) x xs hy, All-more x xs ys h)

  -- The id of a row is among the ids.
  All-any_of : (xs : List A) → All (λ x. any_of (key x) (map key xs) ≡ true) xs
  unfolding any_of
  All-any_of [] = tt
  All-any_of (x ∷ xs) = (ground (arith, same_refl (key x)), All-more x xs xs (All-any_of xs))

module _ {F : Type 0} ⦃d : Float F⦄ (precedes : Text → Text → Bool) (distance : F × F → F × F → F)
    (within : F × F → F × F → F → Bool) (cfg : JobSettings F) where
  -- The candidates are of rows of the two tables.
  pub pairing-AreOf :
      (ids : List Text) (os : List (Observation F)) (fs : List (Frame F))
      → All
          (λ x.
            (any_of x.1.client_id (observation_ids os) ≡ true)
            × (any_of x.0.client_id (frame_ids fs) ≡ true))
          (pairing precedes distance within cfg ids os fs)
  pairing-AreOf ids os fs =
      pairing-Stand precedes distance within cfg (observation_ids os) (frame_ids fs) ids os fs
        (All-any_of (λ o. o.client_id) os) (All-any_of (λ f. f.client_id) fs)
