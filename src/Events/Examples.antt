-- ===== src/Events/Examples.antt =====
-- Batches of events, and the theorems on them.
use pothole_detection_server.Prelude.{
  true, ◌≡◌, ◌⊎◌, refl, none, some, List, [], ◌∷◌, ◌++◌, map, Text, codes, dec_text,
}
use pothole_detection_server.Float.Fixed.{Fixed, fixed_float}
use pothole_detection_server.Samples.{iso, refuses, event, stamp, phone}
use pothole_detection_server.Schema.{Observation, lookup_observation}
use pothole_detection_server.Events.{
  EventPayload, RejectedEvent, normalize_ts, validate_event, event_row, insert_events,
  in_failed_transaction,
}
use pothole_detection_server.Events.Insert.{insert_all, insert_events_again}
use pothole_detection_server.Events.Faults.{
  refusal, rejected_id, insert_events_fault, insert_events_all_or_nothing,
}

abbrev good_batch : List (EventPayload Fixed)
good_batch = event (codes "e1") ∷ event (codes "e2") ∷ event (codes "e1") ∷ []

abbrev stored : List (Observation Fixed)
stored = event_row phone 6 (event (codes "e2")) stamp ∷ []

valid_event : validate_event iso (event (codes "e1")) ≡ true
unfolding validate_event normalize_ts dec_text
valid_event = refl

-- The first event is reported as accepted, though the second makes the transaction fail.
lost_event :
    insert_events iso refuses phone 7
      (event (codes "e1") ∷ event (codes "nul") ∷ event (codes "e3") ∷ [])
      []
    ≡ (
      some (
        codes "e1" ∷ [],
        record { client_id = codes "nul"; reason = codes "invalid byte sequence" }
            ∷ record { client_id = codes "e3"; reason = in_failed_transaction }
            ∷ [],
      ),
      [],
    )
unfolding insert_events normalize_ts dec_text event_row lookup_observation
lost_event = refl

insert_events_again_example :
    let t' = (insert_events iso refuses phone 7 good_batch stored).1 in
    insert_events iso refuses phone 9 good_batch t'
    ≡ (some (codes "e1" ∷ codes "e2" ∷ codes "e1" ∷ [], []), t')
unfolding normalize_ts dec_text event_row insert_events
insert_events_again_example =
    insert_events_again iso refuses phone 7 9 good_batch stored
      (stamp, refl, refl, (stamp, refl, refl, (stamp, refl, refl, tt)))
      (stamp, refl, refl, (stamp, refl, refl, (stamp, refl, refl, tt)))

insert_events_fault_example :
    insert_events iso refuses phone 7
      (event (codes "e1") ∷ event (codes "nul") ∷ event (codes "e3") ∷ [])
      stored
    ≡ (
      some (
        codes "e1" ∷ [],
        refusal (event (codes "nul")) (codes "invalid byte sequence")
            ∷ record { client_id = codes "e3"; reason = in_failed_transaction }
            ∷ [],
      ),
      stored,
    )
unfolding normalize_ts dec_text event_row
insert_events_fault_example =
    insert_events_fault iso refuses phone 7 (event (codes "e1") ∷ []) (event (codes "nul"))
      (event (codes "e3") ∷ []) stored stamp (codes "invalid byte sequence") (stamp, refl, refl, tt)
      refl refl ((stamp, refl), tt)

insert_events_all_or_nothing_example :
    let (result, t') = insert_events iso refuses phone 7 good_batch stored in
    ((result ≡ some (codes "e1" ∷ codes "e2" ∷ codes "e1" ∷ [], []))
      × (t' ≡ insert_all iso refuses phone 7 good_batch stored))
    ⊎ (((accepted : List Text) × (first : RejectedEvent) × (rest : List RejectedEvent) × (result
            ≡ some (accepted, first ∷ rest))
          × (accepted ++ map rejected_id (first ∷ rest) ≡ codes "e1" ∷ codes "e2" ∷ codes "e1" ∷ [])
          × (t' ≡ stored))
        ⊎ ((result ≡ none) × (t' ≡ stored)))
insert_events_all_or_nothing_example =
    insert_events_all_or_nothing iso refuses phone 7 good_batch stored
