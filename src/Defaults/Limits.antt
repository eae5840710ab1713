-- ===== src/Defaults/Limits.antt =====
-- What the defaults of the settings make sure of.
use pothole_detection_server.Prelude.{
  ℕ, ◌≤◌, ◌≡◌, ap, true, Option, List, [], ◌∷◌, arith, Text, length, All, map,
}
use pothole_detection_server.Http.{ok}
use pothole_detection_server.Headers.{require_device_id, require_version_v1}
use pothole_detection_server.Float.{Float}
use pothole_detection_server.RateLimit.Limits.{after}
use pothole_detection_server.Events.{EventPayload, validate_batch}
use pothole_detection_server.Events.Insert.{Accepts, IsStored, id_of}
use pothole_detection_server.Routes.{Clock, post_events}
use pothole_detection_server.System.{Outside, System, Move, sends_events, server_at, run_moves}
use pothole_detection_server.System.Evolves.{IsSound}
use pothole_detection_server.System.Durable.{run_moves-Accepts}
use pothole_detection_server.Defaults.{endpoints}

module _ {F G I J R : Type 0} ⦃d : Float F⦄ (env : Outside F G I J R) where
  length-validate_batch :
      (es : List (EventPayload F)) → validate_batch env.fromisoformat es ≡ true → length es ≤ 100
  unfolding validate_batch
  length-validate_batch es valid = ground arith

  -- With the default limits, on well-formed data, the first batch that a worker gets is within the
  -- batch limit and the rate limit if it is valid: with the required headers, and if PostgreSQL
  -- takes its rows, it is accepted, and all its client ids are stored after any further moves at
  -- any workers.
  pub first_batch-Accepts :
      (w : ℕ) (clock : Clock) (x v : Option Text) (device version : Text)
      (es : List (EventPayload F)) (ms : List (Move F J)) (s : System F G I R)
      → env.settings ≡ endpoints
      → IsSound s.data_of
      → validate_batch env.fromisoformat es ≡ true
      → require_device_id x ≡ ok device
      → require_version_v1 v ≡ ok version
      → (s.workers w).limiter ≡ after [] []
      → Accepts env.fromisoformat env.refuses device clock.db_now es s.data_of.asset_observation
      → ((post_events env.fromisoformat env.refuses env.settings clock x v es (server_at w s)).0
          ≡ ok (record { accepted = map id_of es; rejected = [] }))
        × All
            (λ e.
              IsStored e.client_id
                (run_moves env (sends_events w clock x v es ∷ ms) s).data_of.asset_observation)
            es
  first_batch-Accepts w clock x v device version es ms s default sound valid hx hv new taken =
      let few = length-validate_batch es valid in
      let batch_limit : env.settings.max_batch_size ≡ 100 = ap (λ c. c.max_batch_size) default in
      let limit : env.settings.rate_limits.rate_limit_events_per_hour ≡ 100 =
        ap (λ c. c.rate_limits.rate_limit_events_per_hour) default in
      run_moves-Accepts env w clock x v device version es [] [] ms s sound valid hx hv
        (omega (arith, few, batch_limit)) new tt (omega (arith, few, limit)) taken
