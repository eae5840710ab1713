-- ===== src/Fusion/Samples.antt =====
-- Two observations and one frame, for the examples.
use pothole_detection_server.Prelude.{
  ℕ, ◌*◌, Bool, true, false, Option, none, List, [], ◌∷◌, Text, codes,
}
use pothole_detection_server.Float.{zero_f}
use pothole_detection_server.Float.Fixed.{Fixed, plus, unit, fixed_float}
use pothole_detection_server.Schema.{Observation, Frame}
use pothole_detection_server.Events.{event_row}
use pothole_detection_server.Frames.{frame_row}
use pothole_detection_server.Engine.{FusionSettings, matlab_v1}
use pothole_detection_server.Sensor.{SensorModel}
use pothole_detection_server.Samples.{event, frame, stamp, phone, dumps}
use pothole_detection_server.Fusion.{Tables, JobSettings}
use pothole_detection_server.Fusion.Job.{RunContext}

abbrev pub first : Observation Fixed
first = event_row phone 5 (event (codes "e1")) stamp

abbrev pub second : Observation Fixed
second = event_row phone 6 (event (codes "e2")) record stamp { instant = 1_779_877_800_900_000 }

abbrev pub photo : Frame Fixed
photo = frame_row dumps phone 7 (frame (codes "f1")) stamp (codes "dev-1/f1.jpg")

abbrev pub tables : Tables Fixed
tables = record {
  asset_observation = second ∷ first ∷ [];
  asset_frame = photo ∷ [];
  fusion_pair = [];
  fusion_run = [];
}

-- All places are one place here, and the database orders texts by nothing.
abbrev pub distance : Fixed × Fixed → Fixed × Fixed → Fixed
distance a b = zero_f

abbrev pub within : Fixed × Fixed → Fixed × Fixed → Fixed → Bool
within a b m = true

abbrev pub precedes : Text → Text → Bool
precedes a b = false

abbrev pub to_ms : ℕ → ℕ → Fixed
to_ms a b = zero_f

abbrev pub cfg : JobSettings Fixed
cfg = record {
  fusion_batch_size = 500;
  fusion_window_ms = 3000;
  fusion_window_m = plus (25 * unit);
}

abbrev pub engines : FusionSettings Fixed
engines = record {
  fusion_engine_version = matlab_v1;
  fusion_w_s = plus 500_000;
  fusion_w_v = plus 500_000;
  fallback_ratio_mean = plus (3 * unit);
  fallback_ratio_std = plus unit;
  severity_speed_ref = plus (5 * unit);
  severity_scale = plus (2 * unit);
}

abbrev pub run : RunContext Fixed
run = record { now = 9; run_id = codes "run-1"; runtime_ms = zero_f }

abbrev pub no_model : Option (SensorModel Fixed Text Text)
no_model = none

abbrev pub pdf : List Fixed → List Fixed → List (List Fixed) → Option Fixed
pdf z mu sigma = none

abbrev pub predict : Text → List Fixed → Option Bool
predict forest xo = none
