-- ===== src/Routes/Events.antt =====
-- The events endpoint, from the headers to the table.
use pothole_detection_server.Prelude.{
  inl, inr, ◌+◌, ◌≤◌, ◌≡◌, refl, Option, List, [], ◌∷◌, map, arith, Text, length, All,
}
use pothole_detection_server.Http.{ok, raise, HttpException, Outcome-cases}
use pothole_detection_server.Headers.{require_device_id, require_version_v1}
use pothole_detection_server.RateLimit as Rate
use pothole_detection_server.RateLimit.{check_rate_limit}
use pothole_detection_server.RateLimit.Log.{Charge, IsUntil, logged}
use pothole_detection_server.RateLimit.Limits.{
  after, charged, check_rate_limit-events, check_rate_limit-status,
}
use pothole_detection_server.Schema.{DateTime, Observation}
use pothole_detection_server.Events.{Refusal, EventPayload}
use pothole_detection_server.Events.Insert.{
  id_of, insert_all, Accepts, IsStored, insert_events-Accepts, accepted-IsStored,
  insert_events_raises,
}
use pothole_detection_server.Routes.{Settings, Server, Clock, ingest_events, post_events}

module _ (fromisoformat : Text → Option DateTime) {F R : Type 0}
    (refuses : List (Observation F) → Observation F → Option Refusal) (cfg : Settings)
    (clock : Clock) where
  ingest_events_refused :
      (device_id : Text) (events : List (EventPayload F)) (s : Server F R) {e : HttpException}
      → let (answer, s') = ingest_events fromisoformat refuses cfg clock device_id events s in
        answer ≡ raise e
        → (s'.asset_observation ≡ s.asset_observation)
          × (s'.frames ≡ s.frames)
          × (e.status_code ≡ 400 → s' ≡ s)
  unfolding ingest_events
  ingest_events_refused device_id events s {e = e} h = ground (
    arith,
    insert_events_raises fromisoformat refuses device_id clock.db_now events s.asset_observation,
    check_rate_limit-status cfg.rate_limits device_id Rate.events (length events) clock.time
        s.limiter {e = e},
  )

  -- A request for events that is not answered with 200, for whatever reason, leaves the
  -- observations and the frames as they were; if the status is 400, as for a missing header or a
  -- batch that is too large, it changes nothing at all.
  pub post_events_refused :
      (x v : Option Text) (events : List (EventPayload F)) (s : Server F R) {e : HttpException}
      → let (answer, s') = post_events fromisoformat refuses cfg clock x v events s in
        answer ≡ raise e
        → (s'.asset_observation ≡ s.asset_observation)
          × (s'.frames ≡ s.frames)
          × (e.status_code ≡ 400 → s' ≡ s)
  unfolding post_events
  post_events_refused x v events s {e = e} h = elim (Outcome-cases (require_device_id x)) [
    | inr (e', bad) ↦ ground arith
    | inl (d, good) ↦ elim (Outcome-cases (require_version_v1 v)) [
      | inr (e', bad) ↦ ground arith
      | inl (version, fine) ↦ ground (arith, ingest_events_refused d events s {e = e})
    ]
  ]

  ingest_events-Accepts :
      (d : Text) (events : List (EventPayload F)) (he hf : List Charge) (s : Server F R)
      → length events ≤ cfg.max_batch_size
      → s.limiter ≡ after he hf
      → IsUntil clock.time he
      → length events + logged he d clock.time ≤ cfg.rate_limits.rate_limit_events_per_hour
      → Accepts fromisoformat refuses d clock.db_now events s.asset_observation
      → ingest_events fromisoformat refuses cfg clock d events s ≡ (
        ok (record { accepted = map id_of events; rejected = [] }),
        record s {
          limiter = after (charged d (length events) clock.time ∷ he) hf;
          asset_observation =
              insert_all fromisoformat refuses d clock.db_now events s.asset_observation;
        },
      )
  unfolding ingest_events
  ingest_events-Accepts d events he hf s small l u within a = ground (
    arith,
    check_rate_limit-events cfg.rate_limits d (length events) clock.time he hf u,
    insert_events-Accepts fromisoformat refuses d clock.db_now events s.asset_observation a,
  )

  post_events_run :
      (x v : Option Text) (d version : Text) (events : List (EventPayload F)) (s : Server F R)
      → require_device_id x ≡ ok d
      → require_version_v1 v ≡ ok version
      → post_events fromisoformat refuses cfg clock x v events s
        ≡ ingest_events fromisoformat refuses cfg clock d events s
  unfolding post_events
  post_events_run x v d version events s hx hv = ground arith

  -- A request with the required headers, within the batch limit and the rate limit, whose rows
  -- PostgreSQL takes is answered with every client id as accepted, in order, and none as rejected;
  -- each of these is then in the table, and the limiter's log has one more entry.
  pub post_events-Accepts :
      (x v : Option Text) (d version : Text) (events : List (EventPayload F)) (he hf : List Charge)
      (s : Server F R)
      → require_device_id x ≡ ok d
      → require_version_v1 v ≡ ok version
      → length events ≤ cfg.max_batch_size
      → s.limiter ≡ after he hf
      → IsUntil clock.time he
      → length events + logged he d clock.time ≤ cfg.rate_limits.rate_limit_events_per_hour
      → Accepts fromisoformat refuses d clock.db_now events s.asset_observation
      → let (answer, s') = post_events fromisoformat refuses cfg clock x v events s in
        (answer ≡ ok (record { accepted = map id_of events; rejected = [] }))
        × All (λ e. IsStored e.client_id s'.asset_observation) events
        × (s'.limiter ≡ after (charged d (length events) clock.time ∷ he) hf)
  post_events-Accepts x v d version events he hf s hx hv small l u within a =
      let t = s.asset_observation in
      let stored = accepted-IsStored fromisoformat refuses d clock.db_now events t _ a refl in
      rw
        (
          post_events_run x v d version events s hx hv,
          ingest_events-Accepts d events he hf s small l u within a,
        )
        (refl, stored, refl)
