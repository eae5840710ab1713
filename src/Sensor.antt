-- ===== src/Sensor.antt =====
-- app/sensor_model/model.py and app/sensor_model/score.py: the fitted model, and the score of an
-- observation.
pub mod Score
pub mod Verdict
pub mod Fit
pub mod Store
pub mod Scored
pub mod Samples
mod Examples
use pothole_detection_server.Prelude.{
  ℕ, suc, Bool, true, false, not, ◌||◌, Option, none, some, List, [], ◌∷◌, ◌==◌, if◌then◌else◌,
  Text, codes, same, foldl,
}
use pothole_detection_server.Float.{Float, zero_f, one_f, divide}
use pothole_detection_server.Features.{classifier_features, outlier_features, severity}

abbrev pub class_pothole : Text
class_pothole = codes "pothole"

abbrev pub class_crack : Text
class_crack = codes "crack"

abbrev pub class_not : Text
class_not = codes "not"

-- CLASSES, by ascending energy
abbrev pub classes : List Text
classes = class_not ∷ class_crack ∷ class_pothole ∷ []

pub record Standardization (F : Type 0) : Type 0 where
  pub ratio_mean : F
  pub ratio_std : F
  pub gbar_mean : F
  pub gbar_std : F

pub record SeverityCalibration (F : Type 0) : Type 0 where
  pub speed_ref : F
  pub scale : F

-- An entry of `components`.
pub record Component (F : Type 0) : Type 0 where
  pub mu : List F
  pub sigma : List (List F)
  pub weight : F

-- A dictionary from components to classes.
abbrev pub ClassMap : Type 0
ClassMap = List (ℕ × Text)

-- `class_map[i]`, where `none` is a KeyError.
unfoldable pub class_of : ℕ → ClassMap → Option Text
class_of i [] = none
class_of i ((j, c) ∷ m) = if j == i then some c else class_of i m

-- `G` and `I` are the types of the mixture and of the isolation forest.
pub record SensorModel (F G I : Type 0) : Type 0 where
  pub model_version : Text
  pub standardization : Standardization F
  pub class_map : ClassMap
  pub severity_calib : SeverityCalibration F
  pub k : ℕ
  pub n_observations : ℕ
  pub bic : Option F
  pub sklearn_version : Option Text
  pub gmm : Option G
  pub iforest : Option I
  pub components : List (Component F)

pub record ScoreResult (F : Type 0) : Type 0 where
  pub sensor_class : Text
  pub p_pothole : F
  pub severity : F
  pub is_outlier : Bool

-- A dictionary from classes to posteriors, in the order of insertion.
abbrev pub Posteriors : Type 0 → Type 0
Posteriors F = List (Text × F)

module _ {F : Type 0} ⦃d : Float F⦄ where
  -- `self.ratio_std if self.ratio_std > 0 else 1.0`
  pub positive_std : F → F
  positive_std s = if d.lt zero_f s then s else one_f

  -- `Standardization.transform`, where `none` is a ZeroDivisionError.
  unfoldable pub transform : Standardization F → F → F → Option (List F)
  unfolding positive_std
  transform std ratio gbar =
      elim (divide (d.sub ratio std.ratio_mean) (positive_std std.ratio_std)) [
        | none ↦ none
        | some r ↦ elim (divide (d.sub gbar std.gbar_mean) (positive_std std.gbar_std)) [
          | none ↦ none
          | some g ↦ some (r ∷ g ∷ [])
        ]
      ]

  -- `posteriors.get(cls, 0.0)`
  unfoldable pub get_posterior : Text → Posteriors F → F
  get_posterior cls [] = zero_f
  get_posterior cls ((c, p) ∷ ps) = if same c cls then p else get_posterior cls ps

  -- `posteriors[cls] = posteriors.get(cls, 0.0) + x`
  unfoldable pub add_posterior : Text → F → Posteriors F → Posteriors F
  add_posterior cls x [] = (cls, d.add zero_f x) ∷ []
  add_posterior cls x ((c, p) ∷ ps) =
      if same c cls then (c, d.add p x) ∷ ps else (c, p) ∷ add_posterior cls x ps

  -- The loop over the densities from component `i` on.
  unfoldable pub add_posteriors : ClassMap → F → ℕ → List F → Posteriors F → Option (Posteriors F)
  add_posteriors m total i [] ps = some ps
  add_posteriors m total i (x ∷ xs) ps = elim (class_of i m) [
    | none ↦ none
    | some cls ↦ elim (divide x total) [
      | none ↦ none
      | some q ↦ add_posteriors m total (suc i) xs (add_posterior cls q ps)
    ]
  ]

  -- `max(posteriors, key=posteriors.get)`, with the best entry so far.
  unfoldable pub best_class : Text × F → Posteriors F → Text × F
  best_class best [] = best
  best_class best (e ∷ ps) = best_class (if d.lt best.1 e.1 then e else best) ps

  -- What the posteriors make of the severity and of the gate's verdict.
  pub score_of : F → Bool → Posteriors F → ScoreResult F
  unfolding best_class get_posterior
  score_of s outlier [] = record {
    sensor_class = class_not;
    p_pothole = zero_f;
    severity = s;
    is_outlier = true;
  }
  score_of s outlier (e ∷ ps) = record {
    sensor_class = (best_class e ps).0;
    p_pothole = get_posterior class_pothole (e ∷ ps);
    severity = s;
    is_outlier = outlier;
  }

  -- `z` for an observation: its features, standardized.
  unfoldable pub standardized : Standardization F → Option F → Option F → Option F → Option (List F)
  unfolding transform
  standardized std magnitude accel_std gbar_in_max =
      elim (classifier_features magnitude accel_std gbar_in_max) [
        | some (ratio ∷ gbar ∷ []) ↦ transform std ratio gbar
        | _ ↦ none
      ]

  -- `iforest.predict` on one row: whether it gives -1, or `none` for an exception
  module _ {I : Type 0} (predict : I → List F → Option Bool) where
    -- The outlier gate, which is open where there is no forest.
    pub outlier_gate : Option I → Option F → Option F → Option F → Option F → Option Bool
    outlier_gate none magnitude accel_std gbar_in_max speed_mps = some false
    outlier_gate (some forest) magnitude accel_std gbar_in_max speed_mps =
        elim (outlier_features magnitude accel_std gbar_in_max speed_mps) [
          | none ↦ none
          | some xo ↦ predict forest xo
        ]

  -- `multivariate_normal.pdf(z, mean=mu, cov=sigma)`, where `none` is an exception
  module _ (pdf : List F → List F → List (List F) → Option F) where
    unfoldable pub densities : List F → List (Component F) → Option (List F)
    densities z [] = some []
    densities z (c ∷ cs) = elim (pdf z c.mu c.sigma) [
      | none ↦ none
      | some p ↦ elim (densities z cs) [ none ↦ none | some xs ↦ some (d.mul c.weight p ∷ xs) ]
    ]

    -- `_class_posteriors`
    unfoldable pub class_posteriors : ClassMap → List (Component F) → List F → Option (Posteriors F)
    unfolding densities add_posteriors
    class_posteriors m cs z = elim (densities z cs) [
      | none ↦ none
      | some xs ↦
          let total = foldl d.add zero_f xs in
          if d.le total zero_f || not (d.is_finite total)
          then some []
          else add_posteriors m total 0 xs []
    ]

module _ {F G I : Type 0} ⦃d : Float F⦄ (pdf : List F → List F → List (List F) → Option F)
    (predict : I → List F → Option Bool) where
  unfoldable pub score_observation :
      SensorModel F G I → Option F → Option F → Option F → Option F → Option (ScoreResult F)
  unfolding standardized class_posteriors outlier_gate score_of
  score_observation model magnitude accel_std gbar_in_max speed_mps =
      elim (standardized model.standardization magnitude accel_std gbar_in_max) [
        | none ↦ none
        | some z ↦ elim (class_posteriors pdf model.class_map model.components z) [
          | none ↦ none
          | some posteriors ↦
              elim (severity magnitude speed_mps model.severity_calib.speed_ref
                model.severity_calib.scale) [
                  | none ↦ none
                  | some s ↦
                      elim (outlier_gate predict model.iforest magnitude accel_std gbar_in_max
                        speed_mps) [
                          | none ↦ none
                          | some outlier ↦ some (score_of s outlier posteriors)
                        ]
                ]
        ]
      ]
