-- ===== src/Schema.antt =====
-- The tables of the database, row by row (migrations/*.sql), and Python's timestamps.
use pothole_detection_server.Prelude.{
  ℕ, Bool, Option, none, some, List, [], ◌∷◌, Text, same, if◌then◌else◌,
}

-- A `datetime`: whether it has a time zone, and the instant in microseconds from an origin before
-- all of them.
pub record DateTime : Type 0 where
  pub has_tzinfo : Bool
  pub instant : ℕ

-- A row of asset_observation. `geom` is the point (lon, lat).
pub record Observation (F : Type 0) : Type 0 where
  pub client_id : Text
  pub device_id : Text
  pub asset_type : Text
  pub schema_version : ℕ
  pub ts_utc : ℕ
  pub geom : F × F
  pub speed_mps : Option F
  pub bearing_deg : Option F
  pub speed_accuracy_mps : Option F
  pub accel_max_g : Option F
  pub accel_std : Option F
  pub magnitude : Option F
  pub gbar_in_max : Option F
  pub time_in_max : Option F
  pub time_in_min : Option F
  pub confidence : F
  pub raw_window_b64 : Option Text
  pub visual_confirmed : Option Bool
  pub frame_client_id : Option Text
  pub received_at : ℕ
  pub sensor_class : Option Text
  pub sensor_p_pothole : Option F
  pub sensor_severity : Option F
  pub sensor_is_outlier : Option Bool
  pub sensor_model_version : Option Text
  pub scored_at : Option ℕ

-- A row of asset_frame.
pub record Frame (F : Type 0) : Type 0 where
  pub client_id : Text
  pub device_id : Text
  pub event_client_id : Option Text
  pub ts_utc : ℕ
  pub geom : F × F
  pub device_probability : Option F
  pub device_model_id : Option Text
  pub device_detections : Option Text
  pub jpeg_url : Text
  pub server_probability : Option F
  pub server_model_id : Option Text
  pub received_at : ℕ
  pub processed_at : Option ℕ

module _ {F : Type 0} where
  unfoldable pub lookup_observation : Text → List (Observation F) → Option (Observation F)
  lookup_observation k [] = none
  lookup_observation k (r ∷ t) = if same r.client_id k then some r else lookup_observation k t

  unfoldable pub lookup_frame : Text → List (Frame F) → Option (Frame F)
  lookup_frame k [] = none
  lookup_frame k (r ∷ t) = if same r.client_id k then some r else lookup_frame k t
