-- ===== src/Events/Ids.antt =====
-- `insert_events` loses no row, and stores no client id twice.
use pothole_detection_server.Prelude.{
  subst, ℕ, ◌≡◌, refl, ap, false, Option, none, some, List, [], ◌∷◌, ◌++◌, arith, Text, ◌⊎◌, inl,
  inr, Option-cases, Bool-cases,
}
use pothole_detection_server.Schema.{DateTime, Observation, lookup_observation}
use pothole_detection_server.Fusion.{any_of}
use pothole_detection_server.Fusion.Ids.{
  Grows, Grows-refl, Grows-eq, Grows-trans, Grows-append, observation_ids, ids-with_score,
}
use pothole_detection_server.Events.Changes.{Changes, untouched, inserts, scores}
use pothole_detection_server.Events.{
  Refusal, postgres_error, other_error, EventPayload, RejectedEvent, Transaction, normalize_ts,
  insert_or_skip, event_row, execute_insert, insert_loop, insert_events, commit,
}

module _ {F : Type 0} where
  lookup_none :
      (k : Text) (rows : List (Observation F))
      → lookup_observation k rows ≡ none
      → any_of k (observation_ids rows) ≡ false
  unfolding lookup_observation any_of
  lookup_none k [] e = refl
  lookup_none k (r ∷ rows) e = ground (arith, lookup_none k rows)

  ids-append :
      (rows : List (Observation F)) (r : Observation F)
      → observation_ids (rows ++ (r ∷ [])) ≡ observation_ids rows ++ (r.client_id ∷ [])
  ids-append [] r = refl
  ids-append (q ∷ rows) r = ap (λ ks. q.client_id ∷ ks) (ids-append rows r)

  insert_or_skip-Grows :
      (rows : List (Observation F)) (r : Observation F)
      → Grows (observation_ids rows) (observation_ids (insert_or_skip rows r))
  unfolding insert_or_skip
  insert_or_skip-Grows rows r = elim (Option-cases (lookup_observation r.client_id rows)) [
    | inl new ↦
        rw (new, insert_or_skip, ids-append rows r)
          (Grows-append (observation_ids rows) r.client_id (lookup_none r.client_id rows new))
    | inr (old, known) ↦ rw (known, insert_or_skip) (Grows-refl (observation_ids rows))
  ]

  -- Whatever changes asset_observation loses no row, and stores no client id twice.
  pub Changes-Grows :
      {t u : List (Observation F)} → Changes t u → Grows (observation_ids t) (observation_ids u)
  Changes-Grows {t = t} untouched = Grows-refl (observation_ids t)
  Changes-Grows (inserts {u = u} r c) = Grows-trans (Changes-Grows c) (insert_or_skip-Grows u r)
  Changes-Grows (scores {u = u} k r version now c) =
      Grows-trans (Changes-Grows c) (Grows-eq (ids-with_score k r version now u))

module _ (fromisoformat : Text → Option DateTime) {F : Type 0}
    (refuses : List (Observation F) → Observation F → Option Refusal) where
  -- A statement leaves the rows, or inserts its row.
  execute_insert_rows :
      (tx : Transaction F) (r : Observation F)
      → let tx' = (execute_insert fromisoformat refuses tx r).1 in
        (tx'.rows ≡ tx.rows) ⊎ (tx'.rows ≡ insert_or_skip tx.rows r)
  unfolding execute_insert
  execute_insert_rows tx r = ground arith

  execute_insert-Changes :
      {t : List (Observation F)} (tx : Transaction F) (r : Observation F)
      → Changes t tx.rows
      → Changes t (execute_insert fromisoformat refuses tx r).1.rows
  execute_insert-Changes tx r c = elim (execute_insert_rows tx r) [
    | inl same_rows ↦ rw same_rows c
    | inr inserted ↦ rw inserted (inserts r c)
  ]

  module _ (device_id : Text) (now : ℕ) where
    insert_loop-Changes :
        (es : List (EventPayload F)) {t : List (Observation F)} (tx tx' : Transaction F)
        (accepted accepted' : List Text) (rejected rejected' : List RejectedEvent)
        → Changes t tx.rows
        → insert_loop fromisoformat refuses device_id now es tx accepted rejected
          ≡ some (accepted', rejected', tx')
        → Changes t tx'.rows
    unfolding insert_loop
    insert_loop-Changes [] {t = t} tx tx' accepted accepted' rejected rejected' c e =
        let done : tx ≡ tx' = ground arith in subst (λ x. Changes t x.rows) done c
    insert_loop-Changes (p ∷ es) {t = t} tx tx' accepted accepted' rejected rejected' c e =
        elim (Option-cases (fromisoformat (normalize_ts p.ts))) [
          | inl bad ↦ absurd (ground arith)
          | inr (dt, good) ↦
              let r = event_row device_id now p dt in
              let next = execute_insert-Changes tx r c in
              after (λ u a r. insert_loop-Changes es u tx' a accepted' r rejected')
                (execute_insert fromisoformat refuses tx r) next (rw (insert_loop, good) at e)
        ]
      where
        after :
            ((u : Transaction F) (a : List Text) (r : List RejectedEvent)
              → Changes t u.rows
              → insert_loop fromisoformat refuses device_id now es u a r
                ≡ some (accepted', rejected', tx')
              → Changes t tx'.rows)
            → (step : Option Refusal × Transaction F) → Changes t step.1.rows
            → elim step.0 [
              | none ↦
                  insert_loop fromisoformat refuses device_id now es step.1
                    (accepted ++ (p.client_id ∷ []))
                    rejected
              | some refusal ↦ elim refusal [
                | other_error ↦ none
                | postgres_error reason ↦
                    insert_loop fromisoformat refuses device_id now es step.1 accepted
                      (rejected ++ (record { client_id = p.client_id; reason = reason } ∷ []))
              ]
            ]
              ≡ some (accepted', rejected', tx')
            → Changes t tx'.rows
        after rest (none, u) d f = rest u _ _ d f
        after rest (some (postgres_error reason), u) d f = rest u _ _ d f
        after rest (some other_error, u) d f = absurd (ground (arith, f))

    -- A batch inserts rows, or leaves the table, whatever the errors.
    pub insert_events-Changes :
        (es : List (EventPayload F)) (t : List (Observation F))
        → Changes t (insert_events fromisoformat refuses device_id now es t).1
    unfolding insert_events
    insert_events-Changes es t =
        let start : Transaction F = record { rows = t; aborted = false } in
        elim (Option-cases (insert_loop fromisoformat refuses device_id now es start [] [])) [
          | inl raised ↦ rw (raised, insert_events) untouched
          | inr ((accepted, rejected, tx), e) ↦ elim (Bool-cases tx.aborted) [
            | inl rolled_back ↦ rw (e, insert_events, commit, rolled_back) untouched
            | inr committed ↦
                rw (e, insert_events, commit, committed)
                  (insert_loop-Changes es start tx [] accepted [] rejected untouched e)
          ]
        ]
