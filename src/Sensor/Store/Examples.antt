-- ===== src/Sensor/Store/Examples.antt =====
-- A model that is saved to a table with another active model, and loaded again.
use pothole_detection_server.Prelude.{
  ◌≡◌, refl, true, none, some, List, [], ◌∷◌, arith, Text, codes, str, dec_text,
}
use pothole_detection_server.Float.Fixed.{Fixed, fixed_float}
use pothole_detection_server.Json.{text, get}
use pothole_detection_server.Json.Tidy.{keep, keep-Agrees}
use pothole_detection_server.Sensor.{SensorModel}
use pothole_detection_server.Sensor.Samples.{model, unpickle}
use pothole_detection_server.Sensor.Store.{
  ModelRow, standardization_to_jsonb, severity_to_jsonb, components_to_items, class_map_to_fields,
}
use pothole_detection_server.Sensor.Store.Table.{save_model, load_active_model}
use pothole_detection_server.Sensor.Store.RoundTrip.{IsCopy, load_active_model-save_model}

abbrev old : ModelRow Fixed
old = record {
  model_version = codes "sensor_gmm_v1_a0";
  n_observations = 2;
  k = 3;
  bic = none;
  standardization_jsonb = text [];
  components_jsonb = text [];
  class_map_jsonb = text [];
  severity_calib_jsonb = text [];
  model_blob = none;
  sklearn_version = none;
  is_active = true;
}

abbrev rows : List (ModelRow Fixed)
rows = old ∷ []

load_active_model-save_model_example :
    (m : SensorModel Fixed Text Text) × (load_active_model unpickle
        (save_model keep model (codes "blob") rows).1
      ≡ some (some m))
    × IsCopy model m
unfolding save_model keep standardization_to_jsonb severity_to_jsonb components_to_items
    class_map_to_fields get dec_text str
load_active_model-save_model_example =
    load_active_model-save_model keep keep-Agrees unpickle model (codes "blob") rows (codes "gmm")
      (codes "forest") (omega arith) refl refl refl refl
