-- ===== src/Events/Changes.antt =====
-- How asset_observation changes: rows are inserted, and rows are scored.
use pothole_detection_server.Prelude.{
  ℕ, ◌≡◌, ◌∙◌, refl, ap, sym, subst, none, some, List, [], ◌∷◌, arith, Text, same, map, inl, inr,
  Bool-cases, if◌then◌else◌,
}
use pothole_detection_server.Schema.{Observation, lookup_observation}
use pothole_detection_server.Sensor.{ScoreResult}
use pothole_detection_server.Fusion.Run.{with_score}
use pothole_detection_server.Events.{insert_or_skip}
use pothole_detection_server.Events.Insert.{or_else-some, lookup_observation-insert_or_skip}

pub data Changes {F : Type 0} (t : List (Observation F)) : List (Observation F) → Type 0 where
  untouched : Changes t t
  inserts :
      {u : List (Observation F)} (r : Observation F) → Changes t u → Changes t (insert_or_skip u r)
  scores :
      {u : List (Observation F)} (k : Text) (r : ScoreResult F) (version : Text) (now : ℕ)
      → Changes t u
      → Changes t (map (with_score k r version now) u)

module _ {F : Type 0} where
  pub Changes-trans : {t u v : List (Observation F)} → Changes t u → Changes u v → Changes t v
  Changes-trans c untouched = c
  Changes-trans c (inserts r c') = inserts r (Changes-trans c c')
  Changes-trans c (scores k r version now c') = scores k r version now (Changes-trans c c')

  pub Changes-eq : {t u : List (Observation F)} → u ≡ t → Changes t u
  Changes-eq {t = t} e = subst (Changes t) (sym e) untouched

  -- What a phone has sent of an observation.
  abbrev pub reading : Observation F → Observation F
  reading o = record o {
    sensor_class = none;
    sensor_p_pothole = none;
    sensor_severity = none;
    sensor_is_outlier = none;
    sensor_model_version = none;
    scored_at = none;
  }

  -- The row of the id is there, with this reading.
  abbrev pub Reads : Text → Observation F → List (Observation F) → Type 0
  Reads k r t = (o : Observation F) × (lookup_observation k t ≡ some o) × (reading o ≡ reading r)

  with_score_fields :
      (j : Text) (res : ScoreResult F) (version : Text) (now : ℕ) (q : Observation F)
      → let q' = with_score j res version now q in
        (q'.client_id ≡ q.client_id) × (reading q' ≡ reading q)
  with_score_fields j res version now q = elim (Bool-cases (same q.client_id j)) [
    | inl own ↦ rw own (refl, refl)
    | inr other ↦ rw other (refl, refl)
  ]

  Reads-with_score :
      (k : Text) (r : Observation F) (j : Text) (res : ScoreResult F) (version : Text) (now : ℕ)
      (t : List (Observation F))
      → Reads k r t
      → Reads k r (map (with_score j res version now) t)
  unfolding lookup_observation
  Reads-with_score k r j res version now [] (o, e, h) = absurd (ground arith)
  Reads-with_score k r j res version now (q ∷ t) (o, e, h) =
      let (same_id, same_reading) = with_score_fields j res version now q in
      elim (Bool-cases (same q.client_id k)) [
        | inl here ↦
            let found : q ≡ o = ground arith in
            (
              with_score j res version now q,
              rw (lookup_observation, same_id, here) refl,
              same_reading ∙ ap reading found ∙ h,
            )
        | inr there ↦
            let (o', e', h') =
              Reads-with_score k r j res version now t
                (o, rw (lookup_observation, there) at e, h) in
            (o', rw (lookup_observation, same_id, there) e', h')
      ]

  -- A stored reading stays under its id, whatever is inserted and scored.
  pub Changes-Reads :
      {t u : List (Observation F)} (k : Text) (r : Observation F)
      → Changes t u
      → Reads k r t
      → Reads k r u
  Changes-Reads k r untouched h = h
  Changes-Reads k r (inserts {u = u} q c) h =
      let (o, e, same_reading) = Changes-Reads k r c h in
      (
        o,
        lookup_observation-insert_or_skip k u q
            ∙ or_else-some (lookup_observation k u) (if same q.client_id k then some q else none) e,
        same_reading,
      )
  Changes-Reads k r (scores {u = u} j res version now c) h =
      Reads-with_score k r j res version now u (Changes-Reads k r c h)
