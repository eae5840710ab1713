-- ===== src/Events/Insert.antt =====
-- `insert_events` on a batch that PostgreSQL takes: what is stored, and what a retry does.
use mathlib.Core.List.{append_assoc, append-nil}
use pothole_detection_server.Prelude.{
  ℕ, ◌≡◌, refl, ◌∙◌, Bool, true, false, Option, none, some, List, [], ◌∷◌, ◌++◌, map, arith, Text,
  same, same_refl, All, Option-cases, inl, inr, if◌then◌else◌,
}
use pothole_detection_server.Schema.{DateTime, Observation, lookup_observation}
use pothole_detection_server.Events.{
  Refusal, postgres_error, Transaction, EventPayload, RejectedEvent, normalize_ts, insert_or_skip,
  event_row, execute_insert, insert_loop, insert_events,
}

abbrev pub id_of : {F : Type 0} → EventPayload F → Text
id_of e = e.client_id

module _ {F : Type 0} where
  -- The row that is found first.
  abbrev pub or_else : Option (Observation F) → Option (Observation F) → Option (Observation F)
  or_else (some r) o = some r
  or_else none o = o

  or_else_if :
      (b : Bool) (r : Observation F) (o p : Option (Observation F))
      → or_else (or_else o (if b then some r else none)) p ≡ or_else o (if b then some r else p)
  or_else_if true r (some x) p = refl
  or_else_if true r none p = refl
  or_else_if false r (some x) p = refl
  or_else_if false r none p = refl

  abbrev pub IsStored : Text → List (Observation F) → Type 0
  IsStored k t = (r : Observation F) × (lookup_observation k t ≡ some r)

  pub or_else-some :
      {r : Observation F} (o p : Option (Observation F)) → o ≡ some r → or_else o p ≡ some r
  or_else-some o p e = rw e

  insert_or_skip_stored :
      (rows : List (Observation F)) (r : Observation F)
      → IsStored r.client_id rows
      → insert_or_skip rows r ≡ rows
  unfolding insert_or_skip
  insert_or_skip_stored rows r (old, e) = rw (e, insert_or_skip)

  lookup_observation-append :
      (k : Text) (xs ys : List (Observation F))
      → lookup_observation k (xs ++ ys)
        ≡ or_else (lookup_observation k xs) (lookup_observation k ys)
  unfolding lookup_observation
  lookup_observation-append k [] ys = refl
  lookup_observation-append k (x ∷ xs) ys = ground (arith, lookup_observation-append k xs ys)

  pub lookup_observation-insert_or_skip :
      (k : Text) (rows : List (Observation F)) (r : Observation F)
      → lookup_observation k (insert_or_skip rows r)
        ≡ or_else (lookup_observation k rows) (if same r.client_id k then some r else none)
  unfolding insert_or_skip lookup_observation
  lookup_observation-insert_or_skip k rows r =
      ground (arith, lookup_observation-append k rows (r ∷ []))

  insert_or_skip-IsStored :
      (rows : List (Observation F)) (r : Observation F)
      → IsStored r.client_id (insert_or_skip rows r)
  insert_or_skip-IsStored rows r = elim (Option-cases (lookup_observation r.client_id rows)) [
    | inl new ↦ (r, rw (lookup_observation-insert_or_skip r.client_id rows r, new, same_refl))
    | inr (old, e) ↦ (old, rw (lookup_observation-insert_or_skip r.client_id rows r, e))
  ]

module _ (fromisoformat : Text → Option DateTime) {F : Type 0}
    (refuses : List (Observation F) → Observation F → Option Refusal) (device_id : Text)
    (now : ℕ) where
  abbrev pub row_of : EventPayload F → DateTime → Observation F
  row_of = event_row device_id now

  abbrev pub parsed : EventPayload F → Option DateTime
  parsed e = fromisoformat (normalize_ts e.ts)

  -- The rows of a batch.
  abbrev pub batch_rows : List (EventPayload F) → List (Observation F)
  batch_rows [] = []
  batch_rows (e ∷ es) = elim (parsed e) [
    | none ↦ batch_rows es
    | some dt ↦ row_of e dt ∷ batch_rows es
  ]

  -- The table after the rows of a batch.
  abbrev pub insert_all : List (EventPayload F) → List (Observation F) → List (Observation F)
  insert_all [] t = t
  insert_all (e ∷ es) t =
      insert_all es (elim (parsed e) [ none ↦ t | some dt ↦ insert_or_skip t (row_of e dt) ])

  -- PostgreSQL refuses none of the rows.
  abbrev pub Accepts : List (EventPayload F) → List (Observation F) → Type 0
  Accepts [] t = Unit
  Accepts (e ∷ es) t =
      (dt : DateTime) × (parsed e ≡ some dt)
      × (refuses t (row_of e dt) ≡ none)
      × Accepts es (insert_or_skip t (row_of e dt))

  pub execute_insert_taken :
      (t : List (Observation F)) (r : Observation F)
      → refuses t r ≡ none
      → execute_insert fromisoformat refuses (record { rows = t; aborted = false }) r
        ≡ (none, record { rows = insert_or_skip t r; aborted = false })
  unfolding execute_insert
  execute_insert_taken t r e = rw (execute_insert, e)

  -- One round of the loop.
  pub insert_loop_taken :
      (e : EventPayload F) (dt : DateTime) (es : List (EventPayload F)) (tx tx' : Transaction F)
      (accepted : List Text) (rejected : List RejectedEvent)
      → parsed e ≡ some dt
      → execute_insert fromisoformat refuses tx (row_of e dt) ≡ (none, tx')
      → insert_loop fromisoformat refuses device_id now (e ∷ es) tx accepted rejected
        ≡ insert_loop fromisoformat refuses device_id now es tx'
            (accepted ++ (e.client_id ∷ []))
            rejected
  unfolding insert_loop
  insert_loop_taken e dt es tx tx' accepted rejected e1 e2 = ground arith

  pub insert_loop_rejected :
      (e : EventPayload F) (dt : DateTime) (es : List (EventPayload F)) (tx tx' : Transaction F)
      (accepted : List Text) (rejected : List RejectedEvent) (reason : Text)
      → parsed e ≡ some dt
      → execute_insert fromisoformat refuses tx (row_of e dt) ≡ (some (postgres_error reason), tx')
      → insert_loop fromisoformat refuses device_id now (e ∷ es) tx accepted rejected
        ≡ insert_loop fromisoformat refuses device_id now es tx' accepted
            (rejected ++ (record { client_id = e.client_id; reason = reason } ∷ []))
  unfolding insert_loop
  insert_loop_rejected e dt es tx tx' accepted rejected reason e1 e2 = ground arith

  pub insert_loop-Accepts :
      (es rest : List (EventPayload F)) (t : List (Observation F)) (accepted : List Text)
      (rejected : List RejectedEvent)
      → Accepts es t
      → insert_loop fromisoformat refuses device_id now
          (es ++ rest)
          (record { rows = t; aborted = false })
          accepted
          rejected
        ≡ insert_loop fromisoformat refuses device_id now rest
            (record { rows = insert_all es t; aborted = false })
            (accepted ++ map id_of es)
            rejected
  insert_loop-Accepts [] rest t accepted rejected a = rw append-nil
  insert_loop-Accepts (e ∷ es) rest t accepted rejected (dt, e1, e2, a) = rw (
    insert_loop_taken e dt (es ++ rest) (record { rows = t; aborted = false })
        (record { rows = insert_or_skip t (row_of e dt); aborted = false }) accepted rejected e1
        (execute_insert_taken t (row_of e dt) e2),
    insert_loop-Accepts es rest (insert_or_skip t (row_of e dt)) (accepted ++ (e.client_id ∷ []))
        rejected a,
    append_assoc,
    e1,
  )

  -- When PostgreSQL takes every row, the whole batch is reported as accepted, nothing as rejected,
  -- and the table holds the rows of the batch.
  pub insert_events-Accepts :
      (es : List (EventPayload F)) (t : List (Observation F))
      → Accepts es t
      → insert_events fromisoformat refuses device_id now es t
        ≡ (some (map id_of es, []), insert_all es t)
  unfolding insert_events
  insert_events-Accepts es t a =
      let loop = rw append-nil at (insert_loop-Accepts es [] t [] [] a) in rw (loop, insert_events)

  pub lookup_observation-insert_all :
      (k : Text) (es : List (EventPayload F)) (t : List (Observation F))
      → lookup_observation k (insert_all es t)
        ≡ or_else (lookup_observation k t) (lookup_observation k (batch_rows es))
  unfolding lookup_observation event_row
  lookup_observation-insert_all k [] t = ground arith
  lookup_observation-insert_all k (e ∷ es) t =
      elim (parsed e)
        as (λ o.
          lookup_observation k
            (insert_all es (elim o [ none ↦ t | some dt ↦ insert_or_skip t (row_of e dt) ]))
          ≡ or_else (lookup_observation k t) (
              lookup_observation k
                (elim o [ none ↦ batch_rows es | some dt ↦ row_of e dt ∷ batch_rows es ]))) [
                  | none ↦ lookup_observation-insert_all k es t
                  | some dt ↦
                      rw
                        (
                          lookup_observation-insert_all k es (insert_or_skip t (row_of e dt)),
                          lookup_observation-insert_or_skip k t (row_of e dt),
                        )
                        (or_else_if (same e.client_id k) (row_of e dt) (lookup_observation k t)
                          (lookup_observation k (batch_rows es)))
                ]

  -- When PostgreSQL takes every row of a batch, the whole batch is reported as accepted and nothing
  -- as rejected. Under each client id the table then holds the row that it held before, or else the
  -- row of the first event of the batch with that id, or else none.
  insert_events_stored :
      (es : List (EventPayload F)) (t : List (Observation F))
      → Accepts es t
      → let (result, t') = insert_events fromisoformat refuses device_id now es t in
        (result ≡ some (map id_of es, []))
        × ((k : Text)
            → lookup_observation k t'
              ≡ or_else (lookup_observation k t) (lookup_observation k (batch_rows es)))
  insert_events_stored es t a =
      rw (insert_events-Accepts es t a) (refl, λ k. lookup_observation-insert_all k es t)

  insert_all-IsStored :
      (k : Text) (es : List (EventPayload F)) (t : List (Observation F))
      → IsStored k t
      → IsStored k (insert_all es t)
  insert_all-IsStored k es t (r, e) =
      (r, lookup_observation-insert_all k es t ∙ or_else-some (lookup_observation k t) _ e)

  -- Every event of an accepted batch is stored.
  pub accepted-IsStored :
      (es : List (EventPayload F)) (t u : List (Observation F))
      → Accepts es t
      → insert_all es t ≡ u
      → All (λ e. IsStored e.client_id u) es
  unfolding event_row
  accepted-IsStored [] t u a same_table = tt
  accepted-IsStored (e ∷ es) t u (dt, e1, e2, a) same_table =
      let t' = insert_or_skip t (row_of e dt) in
      let rest : insert_all es t' ≡ u = rw e1 at same_table in
      let here = insert_all-IsStored e.client_id es t' (insert_or_skip-IsStored t (row_of e dt)) in
      (rw rest at here, accepted-IsStored es t' u a rest)

  pub insert_all_stored :
      (es : List (EventPayload F)) (t : List (Observation F))
      → All (λ e. IsStored e.client_id t) es
      → insert_all es t ≡ t
  unfolding event_row
  insert_all_stored [] t a = refl
  insert_all_stored (e ∷ es) t (s, a) = elim (Option-cases (parsed e)) [
    | inl bad ↦ rw bad (insert_all_stored es t a)
    | inr (dt, good) ↦ rw (good, insert_or_skip_stored t (row_of e dt) s) (insert_all_stored es t a)
  ]

  -- An exception leaves the table as it is.
  pub insert_events_raises :
      (es : List (EventPayload F)) (t : List (Observation F))
      → let (result, t') = insert_events fromisoformat refuses device_id now es t in
        result ≡ none → t' ≡ t
  unfolding insert_events
  insert_events_raises es t h = ground arith

module _ (fromisoformat : Text → Option DateTime) {F : Type 0}
    (refuses : List (Observation F) → Observation F → Option Refusal) (device_id : Text)
    (now later : ℕ) where
  -- A batch of which PostgreSQL took every row, and which is sent again at any later time, as by a
  -- client that missed the answer, is reported as accepted again and leaves the table as it is,
  -- with the old times of receipt, if PostgreSQL refuses none of its rows then either.
  pub insert_events_again :
      (es : List (EventPayload F)) (t : List (Observation F))
      → Accepts fromisoformat refuses device_id now es t
      → let t' = (insert_events fromisoformat refuses device_id now es t).1 in
        Accepts fromisoformat refuses device_id later es t'
        → insert_events fromisoformat refuses device_id later es t' ≡ (some (map id_of es, []), t')
  insert_events_again es t a =
      let t1 = insert_all fromisoformat refuses device_id now es t in
      rw (insert_events-Accepts fromisoformat refuses device_id now es t a) λ again. rw (
        insert_events-Accepts fromisoformat refuses device_id later es t1 again,
        insert_all_stored fromisoformat refuses device_id later es t1
            (accepted-IsStored fromisoformat refuses device_id now es t t1 a refl),
      )
