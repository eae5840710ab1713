-- ===== src/Defaults/Examples.antt =====
-- The first batch at a new worker.
use pothole_detection_server.Prelude.{◌≡◌, refl, some, List, [], ◌∷◌, codes, dec_text, All}
use pothole_detection_server.Http.{ok}
use pothole_detection_server.Headers.{
  is_space, strip, lower, lower_char, require_device_id, require_version_v1,
}
use pothole_detection_server.Float.Fixed.{Fixed, fixed_float}
use pothole_detection_server.RateLimit.Log.{replay}
use pothole_detection_server.Events.Insert.{IsStored}
use pothole_detection_server.Events.{
  EventPayload, event_row, validate_batch, validate_all, validate_event, validate_timestamp,
  normalize_ts,
}
use pothole_detection_server.Routes.{post_events}
use pothole_detection_server.Samples.{iso, refuses, event, stamp, phone}
use pothole_detection_server.System.{sends_events, run_moves, server_at}
use pothole_detection_server.System.Samples.{env, start, clock, start-IsSound}
use pothole_detection_server.Defaults.Limits.{first_batch-Accepts}

abbrev batch : List (EventPayload Fixed)
batch = event (codes "e3") ∷ []

first_batch-Accepts_example :
    ((post_events iso refuses env.settings clock
        (some phone)
        (some (codes "v1"))
        batch
        (server_at 1 start)).0
      ≡ ok (record { accepted = codes "e3" ∷ []; rejected = [] }))
    × All
        (λ e.
          IsStored e.client_id
            (run_moves env
              (sends_events 1 clock (some phone) (some (codes "v1")) batch ∷ [])
              start).data_of.asset_observation)
        batch
unfolding validate_batch validate_all validate_event validate_timestamp normalize_ts dec_text
    require_device_id require_version_v1 strip lower lower_char is_space event_row replay
first_batch-Accepts_example =
    first_batch-Accepts env 1 clock (some phone) (some (codes "v1")) phone (codes "v1") batch []
      start refl start-IsSound refl refl refl refl (stamp, refl, refl, tt)
