-- ===== src/Events/Faults.antt =====
-- `insert_events` when PostgreSQL refuses a row: the transaction has failed from there on, and its
-- commit rolls back what came before.
use mathlib.Core.List.{append_assoc, append-nil, map-append}
use pothole_detection_server.Prelude.{
  ℕ, ◌≡◌, ◌∙◌, refl, ap, ◌⊎◌, inl, inr, true, false, arith, Option, none, some, List, [], ◌∷◌, ◌++◌,
  map, Text, Option-cases,
}
use pothole_detection_server.Schema.{DateTime, Observation}
use pothole_detection_server.Events.{
  Refusal, postgres_error, other_error, Transaction, EventPayload, RejectedEvent,
  in_failed_transaction, normalize_ts, insert_or_skip, event_row, execute_insert, insert_loop,
  insert_events,
}
use pothole_detection_server.Events.Insert.{
  id_of, insert_all, Accepts, insert_loop-Accepts, insert_events-Accepts, execute_insert_taken,
  insert_loop_taken, insert_loop_rejected,
}
use pothole_detection_server.Events.Validation.{Parses}

-- The rejection of an event that comes after the refused one.
abbrev pub cut_off : {F : Type 0} → EventPayload F → RejectedEvent
cut_off e = record { client_id = e.client_id; reason = in_failed_transaction }

abbrev pub refusal : {F : Type 0} → EventPayload F → Text → RejectedEvent
refusal e reason = record { client_id = e.client_id; reason = reason }

abbrev pub rejected_id : RejectedEvent → Text
rejected_id r = r.client_id

module _ (fromisoformat : Text → Option DateTime) {F : Type 0}
    (refuses : List (Observation F) → Observation F → Option Refusal) (device_id : Text)
    (now : ℕ) where
  abbrev table_after : List (EventPayload F) → List (Observation F) → List (Observation F)
  table_after = insert_all fromisoformat refuses device_id now

  execute_insert_failed :
      (t : List (Observation F)) (r : Observation F)
      → execute_insert fromisoformat refuses (record { rows = t; aborted = true }) r
        ≡ (some (postgres_error in_failed_transaction), record { rows = t; aborted = true })
  unfolding execute_insert
  execute_insert_failed t r = refl

  execute_insert_refused :
      (t : List (Observation F)) (r : Observation F) (reason : Text)
      → refuses t r ≡ some (postgres_error reason)
      → execute_insert fromisoformat refuses (record { rows = t; aborted = false }) r
        ≡ (some (postgres_error reason), record { rows = t; aborted = true })
  unfolding execute_insert
  execute_insert_refused t r reason e = rw (execute_insert, e)

  insert_loop_aborted :
      (es : List (EventPayload F)) (t : List (Observation F)) (accepted : List Text)
      (rejected : List RejectedEvent)
      → Parses fromisoformat es
      → insert_loop fromisoformat refuses device_id now es
          (record { rows = t; aborted = true })
          accepted
          rejected
        ≡ some (accepted, rejected ++ map cut_off es, record { rows = t; aborted = true })
  unfolding insert_loop
  insert_loop_aborted [] t accepted rejected p = rw append-nil
  insert_loop_aborted (e ∷ es) t accepted rejected ((dt, e1), p) = rw (
    insert_loop_rejected fromisoformat refuses device_id now e dt es
        (record { rows = t; aborted = true }) (record { rows = t; aborted = true }) accepted
        rejected in_failed_transaction e1 (execute_insert_failed t (event_row device_id now e dt)),
    insert_loop_aborted es t accepted (rejected ++ (cut_off e ∷ [])) p,
    append_assoc,
  )

  -- If PostgreSQL refuses the row of an event, the events before it are reported as accepted, it
  -- and all the later ones as rejected, and the table is as it was before the batch: nothing that
  -- was reported as accepted has been stored by this call.
  pub insert_events_fault :
      (pre : List (EventPayload F)) (e : EventPayload F) (post : List (EventPayload F))
      (t : List (Observation F)) (dt : DateTime) (reason : Text)
      → Accepts fromisoformat refuses device_id now pre t
      → fromisoformat (normalize_ts e.ts) ≡ some dt
      → refuses (table_after pre t) (event_row device_id now e dt) ≡ some (postgres_error reason)
      → Parses fromisoformat post
      → insert_events fromisoformat refuses device_id now (pre ++ e ∷ post) t
        ≡ (some (map id_of pre, refusal e reason ∷ map cut_off post), t)
  unfolding insert_events
  insert_events_fault pre e post t dt reason a e1 e2 p =
      let start =
        insert_loop-Accepts fromisoformat refuses device_id now pre (e ∷ post) t [] [] a in
      let finish =
        insert_loop_aborted post (table_after pre t) (map id_of pre) (refusal e reason ∷ []) p in
      let there : Transaction F = record { rows = table_after pre t; aborted = false } in
      let here =
        insert_loop_rejected fromisoformat refuses device_id now e dt post there
          (record { rows = table_after pre t; aborted = true }) (map id_of pre) [] reason e1
          (execute_insert_refused (table_after pre t) _ reason e2) in
      rw (start, insert_events, here, finish)

  insert_loop_raises :
      (e : EventPayload F) (es : List (EventPayload F)) (tx : Transaction F) (accepted : List Text)
      (rejected : List RejectedEvent)
      → (fromisoformat (normalize_ts e.ts) ≡ none)
        ⊎ ((dt : DateTime) × (fromisoformat (normalize_ts e.ts) ≡ some dt)
            × (tx.aborted ≡ false)
            × (refuses tx.rows (event_row device_id now e dt) ≡ some other_error))
      → insert_loop fromisoformat refuses device_id now (e ∷ es) tx accepted rejected ≡ none
  unfolding insert_loop execute_insert
  insert_loop_raises e es tx accepted rejected (inl bad) = ground arith
  insert_loop_raises e es tx accepted rejected (inr (dt, good, running, other)) = ground arith

  abbrev running : List (Observation F) → Transaction F
  running t = record { rows = t; aborted = false }

  abbrev failed_at : List (Observation F) → Transaction F
  failed_at t = record { rows = t; aborted = true }

  -- The loop raises, from this state of the transaction on.
  abbrev Raises : List (EventPayload F) → Transaction F → Type 0
  Raises es tx =
      (accepted : List Text) (rejected : List RejectedEvent)
      → insert_loop fromisoformat refuses device_id now es tx accepted rejected ≡ none

  -- A batch is taken whole, or raises, or has a first event that PostgreSQL refuses.
  data Verdict (es : List (EventPayload F)) (t : List (Observation F)) : Type 0 where
    taken : Accepts fromisoformat refuses device_id now es t → Verdict es t
    raises : Raises es (running t) → Verdict es t
    refused :
        (pre : List (EventPayload F)) (e : EventPayload F) (post : List (EventPayload F))
        (dt : DateTime) (reason : Text)
        → es ≡ pre ++ e ∷ post
        → Accepts fromisoformat refuses device_id now pre t
        → fromisoformat (normalize_ts e.ts) ≡ some dt
        → refuses (table_after pre t) (event_row device_id now e dt) ≡ some (postgres_error reason)
        → Parses fromisoformat post
        → Verdict es t

  failed_loop :
      (es : List (EventPayload F)) (t : List (Observation F))
      → Parses fromisoformat es ⊎ Raises es (failed_at t)
  failed_loop [] t = inl tt
  failed_loop (e ∷ es) t = elim (Option-cases (fromisoformat (normalize_ts e.ts))) [
    | inl bad ↦ inr (λ a r. insert_loop_raises e es (failed_at t) a r (inl bad))
    | inr (dt, good) ↦ elim (failed_loop es t) [
      | inl p ↦ inl ((dt, good), p)
      | inr later ↦ inr (λ a r.
          insert_loop_rejected fromisoformat refuses device_id now e dt es (failed_at t)
            (failed_at t) a r in_failed_transaction good (execute_insert_failed t _)
          ∙ later a _)
    ]
  ]

  verdict : (es : List (EventPayload F)) (t : List (Observation F)) → Verdict es t
  verdict [] t = taken tt
  verdict (e ∷ es) t = elim (Option-cases (fromisoformat (normalize_ts e.ts))) [
    | inl bad ↦ raises (λ a r. insert_loop_raises e es (running t) a r (inl bad))
    | inr (dt, good) ↦
        first dt good (verdict es (insert_or_skip t (event_row device_id now e dt)))
          (refuses t (event_row device_id now e dt)) refl
  ]
    where
      first :
          (dt : DateTime)
          → fromisoformat (normalize_ts e.ts) ≡ some dt
          → Verdict es (insert_or_skip t (event_row device_id now e dt))
          → (answer : Option Refusal) → refuses t (event_row device_id now e dt) ≡ answer
          → Verdict (e ∷ es) t
      first dt good (taken a) none fine = taken (dt, good, fine, a)
      first dt good (raises f) none fine = raises (λ a r.
          insert_loop_taken fromisoformat refuses device_id now e dt es (running t) (running _) a r
            good (execute_insert_taken fromisoformat refuses device_id now t _ fine)
          ∙ f _ r)
      first dt good (refused pre x post dx reason split a x1 x2 q) none fine =
          refused (e ∷ pre) x post dx reason (ap (◌∷◌ e) split) (dt, good, fine, a) x1 (rw good x2)
            q
      first dt good rest (some other_error) e2 =
          raises (λ a r. insert_loop_raises e es (running t) a r (inr (dt, good, refl, e2)))
      first dt good rest (some (postgres_error reason)) e2 = elim (failed_loop es t) [
        | inl p ↦ refused [] e es dt reason refl tt good e2 p
        | inr later ↦ raises (λ a r.
            insert_loop_rejected fromisoformat refuses device_id now e dt es (running t)
              (failed_at t) a r reason good (execute_insert_refused t _ reason e2)
            ∙ later a _)
      ]

  -- For any batch there are three outcomes. Either every event is reported as accepted and the table
  -- holds the rows of the batch; or some event is rejected, the accepted and the rejected ids
  -- together are those of the batch in order, and the table is as it was; or the call raises, and
  -- the table is as it was.
  pub insert_events_all_or_nothing :
      (es : List (EventPayload F)) (t : List (Observation F))
      → let (result, t') = insert_events fromisoformat refuses device_id now es t in
        ((result ≡ some (map id_of es, [])) × (t' ≡ table_after es t))
        ⊎ (((accepted : List Text) × (first : RejectedEvent) × (rest : List RejectedEvent) × (result
                ≡ some (accepted, first ∷ rest))
              × (accepted ++ map rejected_id (first ∷ rest) ≡ map id_of es)
              × (t' ≡ t))
            ⊎ ((result ≡ none) × (t' ≡ t)))
  unfolding insert_events
  insert_events_all_or_nothing es t = outcome (verdict es t)
    where
      same_ids : (xs : List (EventPayload F)) → map rejected_id (map cut_off xs) ≡ map id_of xs
      same_ids [] = refl
      same_ids (x ∷ xs) = ap (◌∷◌ x.client_id) (same_ids xs)

      outcome :
          Verdict es t
          → let (result, t') = insert_events fromisoformat refuses device_id now es t in
            ((result ≡ some (map id_of es, [])) × (t' ≡ table_after es t))
            ⊎ (((accepted : List Text) × (first : RejectedEvent) × (rest : List RejectedEvent)
                  × (result ≡ some (accepted, first ∷ rest))
                  × (accepted ++ map rejected_id (first ∷ rest) ≡ map id_of es)
                  × (t' ≡ t))
                ⊎ ((result ≡ none) × (t' ≡ t)))
      outcome (taken a) =
          rw (insert_events-Accepts fromisoformat refuses device_id now es t a) (inl (refl, refl))
      outcome (raises f) = rw (f [] [], insert_events) (inr (inr (refl, refl)))
      outcome (refused pre e post dt reason split a e1 e2 q) =
          rw (split, insert_events_fault pre e post t dt reason a e1 e2 q)
            (inr (
              inl (
                map id_of pre,
                refusal e reason,
                map cut_off post,
                refl,
                rw (same_ids post, map-append),
                refl,
              )))
