-- ===== src/System/Durable.antt =====
-- What a phone was told is stored stays stored.
use pothole_detection_server.Prelude.{
  ◌+◌, ◌≤◌, ◌≡◌, refl, true, Option, List, [], ◌∷◌, Text, length, All, ℕ, map,
}
use pothole_detection_server.Http.{ok}
use pothole_detection_server.Headers.{require_device_id, require_version_v1}
use pothole_detection_server.Float.{Float}
use pothole_detection_server.Schema.{Observation}
use pothole_detection_server.RateLimit.Log.{Charge, IsUntil, logged}
use pothole_detection_server.RateLimit.Limits.{after}
use pothole_detection_server.Events.{EventPayload, validate_batch}
use pothole_detection_server.Events.Insert.{Accepts, IsStored, id_of}
use pothole_detection_server.Events.Changes.{Changes, Changes-Reads}
use pothole_detection_server.Routes.{Clock, post_events}
use pothole_detection_server.Routes.Events.{post_events-Accepts}
use pothole_detection_server.System.{
  Outside, System, Move, sends_events, server_at, put_server, step, run_moves,
}
use pothole_detection_server.System.Evolves.{IsSound}
use pothole_detection_server.System.Sound.{run_moves-Evolves, step-Evolves}

module _ {F : Type 0} where
  Changes-IsStored :
      (k : Text) {t u : List (Observation F)} → Changes t u → IsStored k t → IsStored k u
  Changes-IsStored k c (r, e) = let (o, found, _) = Changes-Reads k r c (r, e, refl) in (o, found)

  Changes-AreStored :
      (es : List (EventPayload F)) {t u : List (Observation F)}
      → Changes t u
      → All (λ e. IsStored e.client_id t) es
      → All (λ e. IsStored e.client_id u) es
  Changes-AreStored [] c h = tt
  Changes-AreStored (e ∷ es) c (here, h) =
      (Changes-IsStored e.client_id c here, Changes-AreStored es c h)

module _ {F G I J R : Type 0} ⦃d : Float F⦄ (env : Outside F G I J R) where
  step_sends_events :
      (w : ℕ) (clock : Clock) (x v : Option Text) (es : List (EventPayload F)) (s : System F G I R)
      → validate_batch env.fromisoformat es ≡ true
      → (step env (sends_events w clock x v es) s).data_of.asset_observation
        ≡ (post_events env.fromisoformat env.refuses env.settings clock x v es
            (server_at w s)).1.asset_observation
  unfolding step put_server
  step_sends_events w clock x v es s valid = rw (step, valid)

  -- On well-formed data, a valid batch with the required headers, within the batch limit and the
  -- rate limit of the worker that it comes to, whose rows PostgreSQL takes, has all its client ids
  -- stored after any sequence of further moves at any workers.
  pub run_moves-Accepts :
      (w : ℕ) (clock : Clock) (x v : Option Text) (device version : Text)
      (es : List (EventPayload F)) (he hf : List Charge) (ms : List (Move F J)) (s : System F G I R)
      → IsSound s.data_of
      → validate_batch env.fromisoformat es ≡ true
      → require_device_id x ≡ ok device
      → require_version_v1 v ≡ ok version
      → length es ≤ env.settings.max_batch_size
      → (s.workers w).limiter ≡ after he hf
      → IsUntil clock.time he
      → length es + logged he device clock.time
        ≤ env.settings.rate_limits.rate_limit_events_per_hour
      → Accepts env.fromisoformat env.refuses device clock.db_now es s.data_of.asset_observation
      → ((post_events env.fromisoformat env.refuses env.settings clock x v es (server_at w s)).0
          ≡ ok (record { accepted = map id_of es; rejected = [] }))
        × All
            (λ e.
              IsStored e.client_id
                (run_moves env (sends_events w clock x v es ∷ ms) s).data_of.asset_observation)
            es
  unfolding run_moves server_at
  run_moves-Accepts w clock x v device version es he hf ms s sound valid hx hv small l u within a =
      let (answer, stored, _) =
        post_events-Accepts env.fromisoformat env.refuses env.settings clock x v device version es
          he hf (server_at w s) hx hv small l u within a in
      let m = sends_events w clock x v es in
      let s' = step env m s in
      let later = run_moves-Evolves env ms s' (step-Evolves env m s sound).sound in
      let first : All (λ e. IsStored e.client_id s'.data_of.asset_observation) es =
        rw (step_sends_events w clock x v es s valid) stored in
      (answer, Changes-AreStored es later.observations first)
