-- ===== src/Sensor/Store.antt =====
-- app/sensor_model/store.py, and `to_jsonb` and `from_jsonb` of app/sensor_model/model.py.
pub mod Table
pub mod Active
pub mod Copies
pub mod RoundTrip
mod Examples
use pothole_detection_server.Prelude.{
  ℕ, Bool, true, false, ◌||◌, Option, none, some, List, [], ◌∷◌, ◌++◌, if◌then◌else◌, Text, codes,
  same, map, str, int, ◌>>=◌,
}
use pothole_detection_server.Json.{
  Json, number, text, array, object, Items, no_items, item, Fields, no_fields, field, at_key,
  as_number, as_text,
}
use pothole_detection_server.Sensor.{
  Standardization, SeverityCalibration, Component, ClassMap, SensorModel,
}

-- A row of sensor_model.
pub record ModelRow (F : Type 0) : Type 0 where
  pub model_version : Text
  pub n_observations : ℕ
  pub k : ℕ
  pub bic : Option F
  pub standardization_jsonb : Json F
  pub components_jsonb : Json F
  pub class_map_jsonb : Json F
  pub severity_calib_jsonb : Json F
  pub model_blob : Option Text
  pub sklearn_version : Option Text
  pub is_active : Bool

module _ {F : Type 0} where
  -- `value[k]` as a number, where `none` is an exception
  unfoldable pub number_at : Text → Json F → Option F
  number_at k v = do x ← at_key k v; as_number x

  -- `Standardization.to_jsonb`
  unfoldable pub standardization_to_jsonb : Standardization F → Json F
  standardization_to_jsonb s = object (
      field (codes "ratio")
        (object (
          field (codes "mean") (number s.ratio_mean)
            (field (codes "std") (number s.ratio_std) no_fields)))
        (field (codes "gbar")
          (object (
            field (codes "mean") (number s.gbar_mean)
              (field (codes "std") (number s.gbar_std) no_fields)))
          no_fields))

  -- `Standardization.from_jsonb`
  unfoldable pub standardization_from_jsonb : Json F → Option (Standardization F)
  unfolding number_at
  standardization_from_jsonb v = do
    ratio ← at_key (codes "ratio") v
    ratio_mean ← number_at (codes "mean") ratio
    ratio_std ← number_at (codes "std") ratio
    gbar ← at_key (codes "gbar") v
    gbar_mean ← number_at (codes "mean") gbar
    gbar_std ← number_at (codes "std") gbar
    some (record {
      ratio_mean = ratio_mean;
      ratio_std = ratio_std;
      gbar_mean = gbar_mean;
      gbar_std = gbar_std;
    })

  -- `SeverityCalibration.to_jsonb` and `SeverityCalibration.from_jsonb`
  unfoldable pub severity_to_jsonb : SeverityCalibration F → Json F
  severity_to_jsonb c = object (
      field (codes "speed_ref") (number c.speed_ref)
        (field (codes "scale") (number c.scale) no_fields))

  unfoldable pub severity_from_jsonb : Json F → Option (SeverityCalibration F)
  unfolding number_at
  severity_from_jsonb v = do
    speed_ref ← number_at (codes "speed_ref") v
    scale ← number_at (codes "scale") v
    some (record { speed_ref = speed_ref; scale = scale })

  -- A list of floats, and one of lists, as JSON.
  unfoldable pub row_to_items : List F → Items F
  row_to_items [] = no_items
  row_to_items (x ∷ xs) = item (number x) (row_to_items xs)

  unfoldable pub rows_to_items : List (List F) → Items F
  unfolding row_to_items
  rows_to_items [] = no_items
  rows_to_items (x ∷ xs) = item (array (row_to_items x)) (rows_to_items xs)

  -- `components`, which the fit makes of dictionaries, as JSON.
  unfoldable pub component_to_jsonb : Component F → Json F
  unfolding row_to_items rows_to_items
  component_to_jsonb c = object (
      field (codes "mu") (array (row_to_items c.mu)) (
        field (codes "sigma") (array (rows_to_items c.sigma))
          (field (codes "weight") (number c.weight) no_fields)))

  unfoldable pub components_to_items : List (Component F) → Items F
  unfolding component_to_jsonb
  components_to_items [] = no_items
  components_to_items (c ∷ cs) = item (component_to_jsonb c) (components_to_items cs)

  -- The components of a row, as the scorer reads them.
  unfoldable pub items_to_row : Items F → Option (List F)
  items_to_row no_items = some []
  items_to_row (item v vs) = do x ← as_number v; xs ← items_to_row vs; some (x ∷ xs)

  unfoldable pub as_row : Json F → Option (List F)
  unfolding items_to_row
  as_row (array xs) = items_to_row xs
  as_row (number x) = none
  as_row (text t) = none
  as_row (object fs) = none

  unfoldable pub items_to_rows : Items F → Option (List (List F))
  unfolding as_row
  items_to_rows no_items = some []
  items_to_rows (item v vs) = do x ← as_row v; xs ← items_to_rows vs; some (x ∷ xs)

  unfoldable pub as_rows : Json F → Option (List (List F))
  unfolding items_to_rows
  as_rows (array xs) = items_to_rows xs
  as_rows (number x) = none
  as_rows (text t) = none
  as_rows (object fs) = none

  unfoldable pub component_from_jsonb : Json F → Option (Component F)
  unfolding as_row as_rows number_at
  component_from_jsonb v = do
    mu ← at_key (codes "mu") v
    mus ← as_row mu
    sigma ← at_key (codes "sigma") v
    sigmas ← as_rows sigma
    weight ← number_at (codes "weight") v
    some (record { mu = mus; sigma = sigmas; weight = weight })

  unfoldable pub items_to_components : Items F → Option (List (Component F))
  items_to_components no_items = some []
  items_to_components (item v vs) = do
    c ← component_from_jsonb v
    cs ← items_to_components vs
    some (c ∷ cs)

  unfoldable pub components_from_jsonb : Json F → Option (List (Component F))
  unfolding items_to_components
  components_from_jsonb (array xs) = items_to_components xs
  components_from_jsonb (number x) = none
  components_from_jsonb (text t) = none
  components_from_jsonb (object fs) = none

  -- `{str(k): v for k, v in model.class_map.items()}`
  unfoldable pub class_map_to_fields : ClassMap → Fields F
  class_map_to_fields [] = no_fields
  class_map_to_fields ((i, c) ∷ m) = field (str i) (text c) (class_map_to_fields m)

  -- `{int(k): v for k, v in class_map_raw.items()}`, where `none` is a ValueError
  unfoldable pub class_map_from_fields : Fields F → Option ClassMap
  class_map_from_fields no_fields = some []
  class_map_from_fields (field k v fs) = do
    i ← int k
    c ← as_text v
    m ← class_map_from_fields fs
    some ((i, c) ∷ m)

  unfoldable pub class_map_from_jsonb : Json F → Option ClassMap
  unfolding class_map_from_fields
  class_map_from_jsonb (object fs) = class_map_from_fields fs
  class_map_from_jsonb (number x) = none
  class_map_from_jsonb (text t) = none
  class_map_from_jsonb (array xs) = none
