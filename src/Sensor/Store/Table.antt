-- ===== src/Sensor/Store/Table.antt =====
-- app/sensor_model/store.py: the table sensor_model, `save_model` and `load_active_model`.
use pothole_detection_server.Prelude.{
  Bool, true, false, ◌&&◌, ◌||◌, Option, none, some, List, [], ◌∷◌, ◌++◌, if◌then◌else◌, Text, same,
  map, ◌>>=◌,
}
use pothole_detection_server.Json.{Json, object, array}
use pothole_detection_server.Sensor.{SensorModel}
use pothole_detection_server.Sensor.Store.{
  ModelRow, standardization_to_jsonb, standardization_from_jsonb, severity_to_jsonb,
  severity_from_jsonb, components_to_items, components_from_jsonb, class_map_to_fields,
  class_map_from_jsonb,
}

module _ {F : Type 0} where
  -- UPDATE sensor_model SET is_active = FALSE WHERE is_active
  unfoldable pub deactivate : List (ModelRow F) → List (ModelRow F)
  deactivate = map (λ r. if r.is_active then record r { is_active = false } else r)

  -- A row stands in the way of an insert by the primary key or by the index on active rows.
  unfoldable pub conflicts : ModelRow F → List (ModelRow F) → Bool
  conflicts r [] = false
  conflicts r (q ∷ rows) =
      (same q.model_version r.model_version || (q.is_active && r.is_active)) || conflicts r rows

  -- `_INSERT_MODEL_SQL`, where `none` is a UniqueViolationError
  unfoldable pub insert_model : ModelRow F → List (ModelRow F) → Option (List (ModelRow F))
  unfolding conflicts
  insert_model r rows = if conflicts r rows then none else some (rows ++ (r ∷ []))

  -- `_SELECT_ACTIVE_SQL`
  unfoldable pub active_row : List (ModelRow F) → Option (ModelRow F)
  active_row [] = none
  active_row (r ∷ rows) = if r.is_active then some r else active_row rows

-- `transport` is the way of a JSON value through `json.dumps`, the cast to JSONB, and `_loads`;
-- `none` is a refusal by the database, as of a NaN. `unpickle` is `joblib.load`.
module _ {F G I : Type 0} (transport : Json F → Option (Json F)) where
  -- The arguments of the insert.
  unfoldable pub model_row : SensorModel F G I → Text → Option (ModelRow F)
  model_row model blob = do
    standardization ← transport (standardization_to_jsonb model.standardization)
    components ← transport (array (components_to_items model.components))
    class_map ← transport (object (class_map_to_fields model.class_map))
    severity_calib ← transport (severity_to_jsonb model.severity_calib)
    some (record {
      model_version = model.model_version;
      n_observations = model.n_observations;
      k = model.k;
      bic = model.bic;
      standardization_jsonb = standardization;
      components_jsonb = components;
      class_map_jsonb = class_map;
      severity_calib_jsonb = severity_calib;
      model_blob = some blob;
      sklearn_version = model.sklearn_version;
      is_active = true;
    })

  -- `save_model`: whether it raised nothing, and the table, which an exception leaves as it was.
  unfoldable pub save_model :
      SensorModel F G I → Text → List (ModelRow F) → Bool × List (ModelRow F)
  unfolding model_row insert_model deactivate
  save_model model blob rows =
      elim (model_row model blob >>= λ r. insert_model r (deactivate rows)) [
        | none ↦ (false, rows)
        | some rows' ↦ (true, rows')
      ]

module _ {G I : Type 0} (unpickle : Text → Option (G × I)) where
  -- `gmm` and `iforest`, which are None where there is no blob.
  unfoldable pub load_blob : Option Text → Option (Option G × Option I)
  load_blob none = some (none, none)
  load_blob (some blob) = elim (unpickle blob) [
    | none ↦ none
    | some (gmm, iforest) ↦ some (some gmm, some iforest)
  ]

module _ {F G I : Type 0} (unpickle : Text → Option (G × I)) where
  -- The model of a row; `none` is an exception.
  unfoldable pub model_of_row : ModelRow F → Option (SensorModel F G I)
  unfolding load_blob
  model_of_row row = do
    standardization ← standardization_from_jsonb row.standardization_jsonb
    components ← components_from_jsonb row.components_jsonb
    class_map ← class_map_from_jsonb row.class_map_jsonb
    severity_calib ← severity_from_jsonb row.severity_calib_jsonb
    objects ← load_blob unpickle row.model_blob
    some (record {
      model_version = row.model_version;
      standardization = standardization;
      class_map = class_map;
      severity_calib = severity_calib;
      k = row.k;
      n_observations = row.n_observations;
      bic = row.bic;
      sklearn_version = row.sklearn_version;
      gmm = objects.0;
      iforest = objects.1;
      components = components;
    })

  -- `load_active_model`: `some none` is None, and `none` an exception.
  unfoldable pub load_active_model : List (ModelRow F) → Option (Option (SensorModel F G I))
  unfolding model_of_row
  load_active_model rows = elim (active_row rows) [
    | none ↦ some none
    | some row ↦ elim (model_of_row row) [ none ↦ none | some model ↦ some (some model) ]
  ]
