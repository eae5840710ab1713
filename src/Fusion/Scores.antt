-- ===== src/Fusion/Scores.antt =====
-- Scoring changes nothing of asset_observation but the scores.
use pothole_detection_server.Prelude.{
  ◌≡◌, Bool, subst, Option, some, List, [], ◌∷◌, arith, Text, ℕ, inl, inr, Option-cases,
}
use pothole_detection_server.Float.{Float}
use pothole_detection_server.Schema.{Observation}
use pothole_detection_server.Sensor.{SensorModel, score_observation}
use pothole_detection_server.Fusion.{select_unscored}
use pothole_detection_server.Fusion.Run.{score_rows, score_unscored}
use pothole_detection_server.Events.Changes.{Changes, untouched, scores}

module _ {F G I : Type 0} ⦃d : Float F⦄ (pdf : List F → List F → List (List F) → Option F)
    (predict : I → List F → Option Bool) (model : SensorModel F G I) (now : ℕ) where
  score_rows-Changes :
      (rs : List (Observation F)) {t u u' : List (Observation F)}
      → Changes t u
      → score_rows pdf predict model now rs u ≡ some u'
      → Changes t u'
  unfolding score_rows
  score_rows-Changes [] {t = t} {u = u} {u' = u'} c e =
      let done : u ≡ u' = ground arith in subst (Changes t) done c
  score_rows-Changes (r ∷ rs) c e =
      elim (Option-cases
        (score_observation pdf predict model r.magnitude r.accel_std r.gbar_in_max r.speed_mps)) [
          | inl bad ↦ absurd (ground arith)
          | inr (res, good) ↦
              score_rows-Changes rs (scores r.client_id res model.model_version now c)
                (rw (score_rows, good) at e)
        ]

  pub score_unscored-Changes :
      (precedes : Text → Text → Bool) (limit : ℕ) (t : List (Observation F))
      → Changes t (score_unscored pdf predict model now precedes limit t).1
  unfolding score_unscored
  score_unscored-Changes precedes limit t =
      elim (Option-cases (score_rows pdf predict model now (select_unscored precedes limit t) t)) [
        | inl bad ↦ rw (bad, score_unscored) untouched
        | inr (t', good) ↦
            rw (good, score_unscored)
              (score_rows-Changes (select_unscored precedes limit t) untouched good)
      ]
