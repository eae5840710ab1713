-- ===== src/Fusion/Ids.antt =====
-- The ids of a table, and that a run of the fusion job keeps them.
use pothole_detection_server.Prelude.{
  ◌≡◌, refl, sym, subst, true, false, List, [], ◌∷◌, ◌++◌, arith, Text, ℕ, map,
}
use pothole_detection_server.Schema.{Observation, Frame}
use pothole_detection_server.Sensor.{ScoreResult}
use pothole_detection_server.Fusion.{any_of}
use pothole_detection_server.Fusion.Run.{with_score}
use pothole_detection_server.Cluster.Lists.{HasNoRepeat, any_of-append, append-HasNoRepeat}

-- No id gets lost, and none comes twice.
pub record Grows (xs ys : List Text) : Type 0 where
  pub distinct : HasNoRepeat xs → HasNoRepeat ys
  pub stays : (k : Text) → any_of k xs ≡ true → any_of k ys ≡ true

pub Grows-refl : (xs : List Text) → Grows xs xs
Grows-refl xs = record { distinct = λ h. h; stays = λ k h. h }

pub Grows-eq : {xs ys : List Text} → ys ≡ xs → Grows xs ys
Grows-eq {xs = xs} e = subst (Grows xs) (sym e) (Grows-refl xs)

pub Grows-trans : {xs ys zs : List Text} → Grows xs ys → Grows ys zs → Grows xs zs
Grows-trans g h = record {
  distinct = λ e. h.distinct (g.distinct e);
  stays = λ k e. h.stays k (g.stays k e);
}

pub Grows-append : (xs : List Text) (k : Text) → any_of k xs ≡ false → Grows xs (xs ++ (k ∷ []))
Grows-append xs k new = record {
  distinct = λ h. append-HasNoRepeat xs k h new;
  stays = λ j h. ground (arith, any_of-append j xs (k ∷ []));
}

module _ {F : Type 0} where
  abbrev pub observation_ids : List (Observation F) → List Text
  observation_ids = map (λ o. o.client_id)

  abbrev pub frame_ids : List (Frame F) → List Text
  frame_ids = map (λ f. f.client_id)

  pub ids-with_score :
      (k : Text) (r : ScoreResult F) (version : Text) (now : ℕ) (os : List (Observation F))
      → observation_ids (map (with_score k r version now) os) ≡ observation_ids os
  ids-with_score k r version now [] = refl
  ids-with_score k r version now (o ∷ os) = ground (arith, ids-with_score k r version now os)
