-- ===== src/Samples.antt =====
-- Sample requests for the examples of the other modules.
use pothole_detection_server.Prelude.{
  ℕ, Bool, true, Option, none, some, List, [], ◌∷◌, Text, codes, same, if◌then◌else◌,
}
use pothole_detection_server.Float.Fixed.{Fixed, plus, minus}
use pothole_detection_server.Schema.{DateTime, Observation, Frame}
use pothole_detection_server.Events.{Refusal, postgres_error, EventPayload}
use pothole_detection_server.Frames.{FrameMetadata}

-- Reads one timestamp, in its two spellings.
abbrev pub iso : Text → Option DateTime
iso v =
    if same v (codes "2026-05-27T10:30:00+00:00")
    then some (record { has_tzinfo = true; instant = 1_779_877_800_000_000 })
    else none

-- Refuses the rows of one client id, as PostgreSQL refuses a text that holds a NUL.
abbrev pub refuses : List (Observation Fixed) → Observation Fixed → Option Refusal
refuses rows r =
    if same r.client_id (codes "nul")
    then some (postgres_error (codes "invalid byte sequence"))
    else none

abbrev pub event : Text → EventPayload Fixed
event id = record {
  client_id = id;
  schema_version = 1;
  ts = codes "2026-05-27T10:30:00Z";
  lat = plus 43_653_200;
  lon = minus 79_383_199;
  speed_mps = plus 12_000_000;
  bearing_deg = plus 180_000_000;
  speed_accuracy_mps = none;
  accel_max_g = plus 2_500_000;
  accel_std = plus 1_000_000;
  magnitude = plus 3_000_000;
  gbar_in_max = some (plus 2_000_000);
  time_in_max = none;
  time_in_min = none;
  confidence = plus 900_000;
  raw_window_b64 = none;
  visual_confirmed = none;
  frame_client_id = none;
}

abbrev pub stamp : DateTime
stamp = record { has_tzinfo = true; instant = 1_779_877_800_000_000 }

abbrev pub phone : Text
phone = codes "dev-1"

abbrev pub frame : Text → FrameMetadata Fixed Text
frame id = record {
  client_id = id;
  event_client_id = some (codes "e1");
  ts = codes "2026-05-27T10:30:00Z";
  lat = plus 43_653_200;
  lon = minus 79_383_199;
  device_p_on_device = plus 800_000;
  model_id = none;
  detections = some [];
}

-- `json.dumps` on detections that are their own text.
abbrev pub dumps : List Text → Text
dumps js = codes "[]"

-- A bucket that takes every upload.
abbrev pub upload : Text → List ℕ → List Text → Option (List Text)
upload path bytes r = some (path ∷ r)

abbrev pub frame_refuses : Frame Fixed → Bool
frame_refuses r = same r.client_id (codes "nul")

abbrev pub jpeg : List ℕ
jpeg = 0xff ∷ 0xd8 ∷ 0xff ∷ 0xe0 ∷ []
