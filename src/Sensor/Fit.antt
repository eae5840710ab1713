-- ===== src/Sensor/Fit.antt =====
-- app/sensor_model/fit.py: the gates of a fit, and the class of each component.
pub mod Energy
pub mod Outcome
pub mod Models
use pothole_detection_server.Prelude.{
  ℕ, zero, suc, Bool, true, false, Option, none, some, List, [], ◌∷◌, ltb, ◌==◌, if◌then◌else◌,
  Text, codes, ◌++◌, length, map, take,
}
use pothole_detection_server.Float.{Float}
use pothole_detection_server.Features.{classifier_features, outlier_features}
use pothole_detection_server.Sensor.{
  Standardization, SeverityCalibration, Component, ClassMap, SensorModel, class_not, class_crack,
  class_pothole, transform,
}

-- `CLASSES[min(rank, len(CLASSES) - 1)]`
unfoldable pub class_of_rank : ℕ → Text
class_of_rank zero = class_not
class_of_rank (suc zero) = class_crack
class_of_rank (suc (suc rank)) = class_pothole

-- `class_map[i] = cls`
unfoldable pub set_class : ℕ → Text → ClassMap → ClassMap
set_class i cls [] = (i, cls) ∷ []
set_class i cls ((j, c) ∷ m) = if j == i then (j, cls) ∷ m else (j, c) ∷ set_class i cls m

-- The loop over `enumerate(order)` from `rank` on.
unfoldable pub assign_classes : ℕ → List ℕ → ClassMap → ClassMap
assign_classes rank [] m = m
assign_classes rank (i ∷ order) m =
    assign_classes (suc rank) order (set_class i (class_of_rank rank) m)

-- An item of `rows`.
pub record Reading (F : Type 0) : Type 0 where
  pub magnitude : Option F
  pub accel_std : Option F
  pub gbar_in_max : Option F
  pub speed_mps : Option F

-- A fitted `GaussianMixture`, with its BIC on the data.
pub record Mixture (F G : Type 0) : Type 0 where
  pub gmm : G
  pub means : List (List F)
  pub covariances : List (List (List F))
  pub weights : List F
  pub bic : F

-- What `fit_sensor_model` calls of numpy, sklearn and joblib: `xc.mean(axis=0)` and
-- `xc.std(axis=0)` of two columns, `np.allclose(zc.std(axis=0), 0.0)`, the norm of a row, the
-- stable `argsort`, the two fits, where `none` is an exception, the version and `joblib.dump`.
pub record Toolkit (F G I : Type 0) : Type 0 where
  pub mean : List (List F) → F × F
  pub std : List (List F) → F × F
  pub no_variance : List (List F) → Bool
  pub norm : List F → F
  pub argsort : List F → List ℕ
  pub fit_gmm : ℕ → List (List F) → Option (Mixture F G)
  pub fit_forest : List (List F) → Option I
  pub sklearn_version : Text
  pub dump : G → I → Text

-- The outcome of a fit: a FitError, another exception, or the model and its blob.
pub data Fit (F G I : Type 0) : Type 0 where
  fit_error : Fit F G I
  fit_raises : Fit F G I
  fitted : SensorModel F G I → Text → Fit F G I

-- A list of results, if there is no exception among them.
unfoldable pub collect : {A B : Type 0} → (A → Option B) → List A → Option (List B)
collect f [] = some []
collect f (a ∷ rest) = elim (f a) [
  | none ↦ none
  | some b ↦ elim (collect f rest) [ none ↦ none | some bs ↦ some (b ∷ bs) ]
]

-- `components`, from the first `k` entries of the three arrays; `none` is an IndexError.
unfoldable pub components_of :
    {F : Type 0} → ℕ → List (List F) → List (List (List F)) → List F → Option (List (Component F))
components_of zero means covariances weights = some []
components_of (suc k) (mu ∷ means) (sigma ∷ covariances) (w ∷ weights) =
    elim (components_of k means covariances weights) [
      | none ↦ none
      | some cs ↦ some (record { mu = mu; sigma = sigma; weight = w } ∷ cs)
    ]
components_of (suc k) _ _ _ = none

module _ {F : Type 0} ⦃d : Float F⦄ where
  abbrev pub features_of : Reading F → Option (List F)
  features_of r = classifier_features r.magnitude r.accel_std r.gbar_in_max

  abbrev pub outliers_of : Reading F → Option (List F)
  outliers_of r = outlier_features r.magnitude r.accel_std r.gbar_in_max r.speed_mps

  -- `std.transform(x[0], x[1])`
  abbrev pub transform_row : Standardization F → List F → Option (List F)
  transform_row std (ratio ∷ gbar ∷ []) = transform std ratio gbar
  transform_row std _ = none

  module _ {G I : Type 0} (kit : Toolkit F G I) where
    unfoldable pub energy_order : List (List F) → List ℕ
    energy_order means = kit.argsort (map kit.norm means)

    -- The model from the two fits.
    unfoldable pub model_of :
        Text
        → ℕ
        → ℕ
        → SeverityCalibration F
        → Standardization F
        → Mixture F G
        → I
        → List (Component F)
        → SensorModel F G I
    unfolding energy_order assign_classes
    model_of version k n calib std mix forest cs = record {
      model_version = version;
      standardization = std;
      class_map = assign_classes 0 (energy_order mix.means) [];
      severity_calib = calib;
      k = k;
      n_observations = n;
      bic = some mix.bic;
      sklearn_version = some kit.sklearn_version;
      gmm = some mix.gmm;
      iforest = some forest;
      components = cs;
    }

    -- The part after the standardization: `xo` are the rows of the gate, `zc` the standardized
    -- ones.
    pub fit_models :
        Text
        → ℕ
        → ℕ
        → SeverityCalibration F
        → Standardization F
        → List (List F)
        → List (List F)
        → Fit F G I
    unfolding model_of
    fit_models version k n calib std xo zc =
        if kit.no_variance zc then fit_error else elim (kit.fit_gmm k zc) [
          | none ↦ fit_raises
          | some mix ↦ elim (kit.fit_forest xo) [
            | none ↦ fit_raises
            | some forest ↦ elim (components_of k mix.means mix.covariances mix.weights) [
              | none ↦ fit_raises
              | some cs ↦
                  fitted (model_of version k n calib std mix forest cs) (kit.dump mix.gmm forest)
            ]
          ]
        ]

    -- The standardization of the columns of `xc`.
    abbrev pub standardization_of : List (List F) → Standardization F
    standardization_of xc =
        let (ratio_mean, gbar_mean) = kit.mean xc in
        let (ratio_std, gbar_std) = kit.std xc in
        record {
          ratio_mean = ratio_mean;
          ratio_std = ratio_std;
          gbar_mean = gbar_mean;
          gbar_std = gbar_std;
        }

    -- `hex` is that of a fresh uuid, and `engine_prefix` is the default.
    unfoldable pub fit_sensor_model :
        Text → ℕ → SeverityCalibration F → List (Reading F) → Fit F G I
    unfolding fit_models
    fit_sensor_model hex k calib rows =
        if ltb (length rows) k then fit_error else elim (collect features_of rows) [
          | none ↦ fit_raises
          | some xc ↦ elim (collect outliers_of rows) [
            | none ↦ fit_raises
            | some xo ↦ elim (collect (transform_row (standardization_of xc)) xc) [
              | none ↦ fit_raises
              | some zc ↦
                  fit_models (codes "sensor_gmm_v1_" ++ take 12 hex) k (length rows) calib
                    (standardization_of xc) xo zc
            ]
          ]
        ]
