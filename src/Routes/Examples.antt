-- ===== src/Routes/Examples.antt =====
-- Requests to the two endpoints.
use pothole_detection_server.Prelude.{
  ℕ, ◌*◌, ◌≤◌, ◌≡◌, ◌≢◌, refl, true, none, some, List, [], ◌∷◌, arith, Text, codes, dec_text,
  length, take, All,
}
use pothole_detection_server.Http.{ok, missing_device_id, invalid_magic}
use pothole_detection_server.Headers.{
  is_space, strip, lower, lower_char, require_device_id, require_version_v1,
}
use pothole_detection_server.RateLimit.{
  second, check_rate_limit, get_buckets, set_buckets, get_current_count, prune, increment_last,
}
use pothole_detection_server.RateLimit.Log.{replay}
use pothole_detection_server.RateLimit.Limits.{after, charged}
use pothole_detection_server.Float.Fixed.{Fixed, fixed_float}
use pothole_detection_server.Events.{EventPayload, normalize_ts, validate_timestamp, event_row}
use pothole_detection_server.Events.Insert.{IsStored}
use pothole_detection_server.Files.{Bytes, healthy, store_jpeg_local}
use pothole_detection_server.Frames.{FrameMetadata, validate_frame, store_frame}
use pothole_detection_server.Routes.{
  Settings, Server, Clock, MetadataPart, not_json, not_mapping, fields, check_jpeg, has_magic,
  read_metadata, ingest_frame, post_events,
}
use pothole_detection_server.Routes.Events.{post_events_refused, post_events-Accepts}
use pothole_detection_server.Routes.Frames.{ingest_frame_checks, ingest_frame_refused}
use pothole_detection_server.Samples.{
  iso, refuses, event, stamp, phone, frame, dumps, upload, frame_refuses, jpeg,
}

abbrev cfg : Settings
cfg = record {
  rate_limits = record { rate_limit_events_per_hour = 100; rate_limit_frames_per_hour = 100 };
  max_batch_size = 100;
  max_frame_size_bytes = 10_485_760;
  storage = record {
    storage_backend = codes "local";
    storage_local_path = codes "frames";
    supabase_storage_bucket = codes "frames";
  };
}

abbrev server : Server Fixed (List Text)
server = record {
  limiter = after [] [];
  asset_observation = [];
  frames = record { files = []; remote = []; asset_frame = [] };
}

abbrev clock : Clock
clock = record { time = 500 * second; db_now = 9 }

abbrev batch : List (EventPayload Fixed)
batch = event (codes "e1") ∷ event (codes "e2") ∷ []

-- The first byte tells what the metadata are.
abbrev loads : Bytes → MetadataPart Fixed Text
loads [] = not_json
loads (c ∷ []) = not_mapping
loads (c ∷ c' ∷ v) = fields (frame (codes "f1"))

post_events_refused_example :
    (server.asset_observation ≡ server.asset_observation)
    × (server.frames ≡ server.frames)
    × (◌≡◌ {A = ℕ} 400 400 → server ≡ server)
unfolding require_device_id post_events
post_events_refused_example =
    post_events_refused iso refuses cfg clock none (some (codes "v1")) batch server
      {e = record { status_code = 400; detail = missing_device_id }} refl

post_events-Accepts_example :
    let (answer, s') =
      post_events iso refuses cfg clock (some phone) (some (codes "v1")) batch server in
    (answer ≡ ok (record { accepted = codes "e1" ∷ codes "e2" ∷ []; rejected = [] }))
    × All (λ (e : EventPayload Fixed). IsStored e.client_id s'.asset_observation) batch
    × (s'.limiter ≡ after (charged phone 2 (500 * second) ∷ []) [])
unfolding normalize_ts dec_text require_device_id require_version_v1 strip lower lower_char is_space
    event_row
post_events-Accepts_example =
    post_events-Accepts iso refuses cfg clock (some phone) (some (codes "v1")) phone (codes "v1")
      batch [] [] server refl refl (omega arith) refl tt (omega arith)
      (stamp, refl, refl, (stamp, refl, refl, tt))

-- Four bytes of a JPEG, with metadata that the sample reader takes.
abbrev good_metadata : Bytes
good_metadata = 1 ∷ 2 ∷ []

ingest_frame_checks_example :
    (m : FrameMetadata Fixed Text) × (loads good_metadata ≡ fields m)
    × (validate_frame iso m ≡ true)
    × (1 ≤ length jpeg)
    × (length jpeg ≤ cfg.max_frame_size_bytes)
    × (take 3 jpeg ≡ 0xff ∷ 0xd8 ∷ 0xff ∷ [])
unfolding check_rate_limit get_buckets set_buckets get_current_count prune increment_last
    store_frame store_jpeg_local validate_frame validate_timestamp normalize_ts dec_text
    ingest_frame read_metadata check_jpeg has_magic replay
ingest_frame_checks_example =
    ingest_frame_checks iso dumps loads upload frame_refuses cfg clock healthy phone good_metadata
      jpeg server
      {response = record { client_id = codes "f1"; server_p = none; label = none; model_id = none }}
      refl

ingest_frame_refused_example :
    let (_, s') =
      ingest_frame iso dumps loads upload frame_refuses cfg clock healthy phone good_metadata
        (9 ∷ [])
        server in
    (s'.frames.asset_frame ≡ server.frames.asset_frame)
    × (◌≢◌ {A = ℕ} 400 500 → s'.frames ≡ server.frames)
unfolding check_rate_limit get_buckets set_buckets get_current_count prune increment_last
    validate_frame validate_timestamp normalize_ts dec_text ingest_frame read_metadata check_jpeg
    has_magic replay
ingest_frame_refused_example =
    ingest_frame_refused iso dumps loads upload frame_refuses cfg clock healthy phone good_metadata
      (9 ∷ []) server {e = record { status_code = 400; detail = invalid_magic }} refl
