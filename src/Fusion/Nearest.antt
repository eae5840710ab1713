-- ===== src/Fusion/Nearest.antt =====
-- The pairing: which frames get a pair, and that none of the observations that could be theirs is
-- nearer in time.
use pothole_detection_server.Prelude.{
  ◌≤◌, ◌≡◌, refl, subst, Bool, true, false, not, ◌&&◌, ◌||◌, Option, none, some, List, [], ◌∷◌,
  arith, Text, ◌⊎◌, inl, inr, Bool-cases, Option-cases, All, map,
}
use pothole_detection_server.Float.{Float}
use pothole_detection_server.Schema.{Observation, Frame}
use pothole_detection_server.Fusion.{
  JobSettings, is_null, gap, filter, any_of, joins, nearer, nearest_step, nearest_from, pairing,
}

-- The predicate holds of some element.
abbrev pub any {ℓ} : {A : Type ℓ} → (A → Bool) → List A → Bool
any p [] = false
any p (x ∷ xs) = p x || any p xs

module _ {F : Type 0} ⦃d : Float F⦄ (precedes : Text → Text → Bool) (distance : F × F → F × F → F)
    (within : F × F → F × F → F → Bool) (cfg : JobSettings F) where
  abbrev pub can_join : Frame F → Observation F → Bool
  can_join = joins precedes distance within cfg

  -- The best observation so far is at least as near in time as `p`, if `p` can join at all.
  abbrev Beats : Frame F → Observation F → Option (Observation F) → Type 0
  Beats f p none = can_join f p ≡ false
  Beats f p (some o) = (can_join f p ≡ false) ⊎ (gap f.ts_utc o.ts_utc ≤ gap f.ts_utc p.ts_utc)

  step_old :
      (f : Frame F) (best : Option (Observation F)) (o p : Observation F)
      → Beats f p best
      → Beats f p (nearest_step precedes distance within cfg f best o)
  unfolding nearest_step nearer
  step_old f none o p h = ground arith
  step_old f (some b) o p h = ground arith

  step_new :
      (f : Frame F) (best : Option (Observation F)) (o : Observation F)
      → Beats f o (nearest_step precedes distance within cfg f best o)
  unfolding nearest_step nearer
  step_new f none o = ground arith
  step_new f (some b) o = ground arith

  nearest_from_old :
      (f : Frame F) (best : Option (Observation F)) (os : List (Observation F)) (p : Observation F)
      → Beats f p best
      → Beats f p (nearest_from precedes distance within cfg f best os)
  unfolding nearest_from
  nearest_from_old f best [] p h = h
  nearest_from_old f best (o ∷ os) p h =
      nearest_from_old f (nearest_step precedes distance within cfg f best o) os p
        (step_old f best o p h)

  nearest_from_new :
      (f : Frame F) (best : Option (Observation F)) (os : List (Observation F))
      → All (λ p. Beats f p (nearest_from precedes distance within cfg f best os)) os
  unfolding nearest_from
  nearest_from_new f best [] = tt
  nearest_from_new f best (o ∷ os) =
      let next = nearest_step precedes distance within cfg f best o in
      (nearest_from_old f next os o (step_new f best o), nearest_from_new f next os)

  abbrev Joined : Frame F → Option (Observation F) → Type 0
  Joined f none = Unit
  Joined f (some o) = can_join f o ≡ true

  step-Joined :
      (f : Frame F) (best : Option (Observation F)) (o : Observation F)
      → Joined f best
      → Joined f (nearest_step precedes distance within cfg f best o)
  unfolding nearest_step
  step-Joined f none o h = ground arith
  step-Joined f (some b) o h = ground arith

  nearest_from-Joined :
      (f : Frame F) (best : Option (Observation F)) (os : List (Observation F))
      → Joined f best
      → Joined f (nearest_from precedes distance within cfg f best os)
  unfolding nearest_from
  nearest_from-Joined f best [] h = h
  nearest_from-Joined f best (o ∷ os) h =
      nearest_from-Joined f (nearest_step precedes distance within cfg f best o) os
        (step-Joined f best o h)

  step_found :
      (f : Frame F) (best : Option (Observation F)) (o : Observation F)
      → is_null (nearest_step precedes distance within cfg f best o)
        ≡ (is_null best && not (can_join f o))
  unfolding nearest_step
  step_found f none o = ground arith
  step_found f (some b) o = ground arith

  nearest_from_found :
      (f : Frame F) (best : Option (Observation F)) (os : List (Observation F))
      → is_null (nearest_from precedes distance within cfg f best os)
        ≡ (is_null best && not (any (can_join f) os))
  unfolding nearest_from
  nearest_from_found f best [] = ground arith
  nearest_from_found f best (o ∷ os) = ground (
    arith,
    nearest_from_found f (nearest_step precedes distance within cfg f best o) os,
    step_found f best o,
  )

  -- The pair is of a frame of the batch and an observation that may join it, and no observation
  -- that may join the frame is nearer to it in time.
  abbrev pub IsNearest : List Text → List (Observation F) → Frame F × Observation F → Type 0
  IsNearest ids rows (f, o) =
      (any_of f.client_id ids ≡ true)
      × (can_join f o ≡ true)
      × All (λ p. (can_join f p ≡ false) ⊎ (gap f.ts_utc o.ts_utc ≤ gap f.ts_utc p.ts_utc)) rows

  nearest_from-IsNearest :
      (ids : List Text) (rows : List (Observation F)) (f : Frame F) (o : Observation F)
      → any_of f.client_id ids ≡ true
      → nearest_from precedes distance within cfg f none rows ≡ some o
      → IsNearest ids rows (f, o)
  nearest_from-IsNearest ids rows f o h e = (
    h,
    subst (Joined f) e (nearest_from-Joined f none rows tt),
    subst (λ x. All (λ p. Beats f p x) rows) e (nearest_from_new f none rows),
  )

  abbrev pub candidates :
      List Text → List (Observation F) → List (Frame F) → List (Frame F × Observation F)
  candidates = pairing precedes distance within cfg

  -- Every pair is of a frame of the batch with an observation of its device within both windows,
  -- and no such observation is nearer to the frame in time; and the frames that get a pair, each
  -- one pair, are exactly those of the batch that some observation may join.
  pub pairing-IsNearest :
      (ids : List Text) (rows : List (Observation F)) (fs : List (Frame F))
      → All (IsNearest ids rows) (candidates ids rows fs)
        × (map (λ x. x.0) (candidates ids rows fs)
            ≡ filter (λ f. any_of f.client_id ids && any (can_join f) rows) fs)
  unfolding pairing filter
  pairing-IsNearest ids rows [] = (tt, refl)
  pairing-IsNearest ids rows (f ∷ fs) =
      let (near, framed) = pairing-IsNearest ids rows fs in
      elim (Bool-cases (any_of f.client_id ids)) [
        | inr out ↦ rw (out, pairing, filter) (near, framed)
        | inl batch ↦ elim (Option-cases (nearest_from precedes distance within cfg f none rows)) [
          | inl alone ↦
              let lonely = nearest_from_found f none rows in
              rw (batch, pairing, alone, filter) (near, ground (arith, lonely))
          | inr (o, e) ↦
              let found = nearest_from_found f none rows in
              rw (batch, pairing, e, filter)
                ((nearest_from-IsNearest ids rows f o batch e, near), ground (arith, found))
        ]
      ]
