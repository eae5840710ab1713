-- ===== src/Sensor/Samples.antt =====
-- A fit of three components, for the examples.
use pothole_detection_server.Prelude.{
  ℕ, zero, suc, ◌+◌, ◌*◌, ◌<◌, ◌≡◌, ◌≢◌, refl, Bool, false, Option, none, some, List, [], ◌∷◌,
  arith, Text, codes, All, length,
}
use pothole_detection_server.Float.{zero_f}
use pothole_detection_server.Float.Fixed.{Fixed, plus, unit, fixed_float}
use pothole_detection_server.Sensor.{
  SeverityCalibration, Standardization, SensorModel, Posteriors, ScoreResult, Component, class_of,
  class_not, class_crack, class_pothole,
}
use pothole_detection_server.Sensor.Score.{Covers}
use pothole_detection_server.Sensor.Verdict.{HasDensities}
use pothole_detection_server.Sensor.Fit.{Reading, Mixture, Toolkit}
use pothole_detection_server.Sensor.Fit.Energy.{at, AreDistinct}
use pothole_detection_server.Sensor.Fit.Models.{IsOrder}

-- The indices from `i` on, `argsort` of a list that is sorted.
abbrev pub indices : ℕ → ℕ → List ℕ
indices i zero = []
indices i (suc n) = i ∷ indices (suc i) n

indices_other : (i j n : ℕ) → i < j → All (λ k. k ≢ i) (indices j n)
indices_other i j zero l = tt
indices_other i j (suc n) l = (omega arith, indices_other i (suc j) n (omega arith))

indices-AreDistinct : (i n : ℕ) → AreDistinct (indices i n)
indices-AreDistinct i zero = tt
indices-AreDistinct i (suc n) =
    (indices_other i (suc i) n (omega arith), indices-AreDistinct (suc i) n)

at-indices : (i j n : ℕ) → j < n → at j (indices i n) ≡ some (i + j)
at-indices i j zero l = absurd (omega arith)
at-indices i zero (suc n) l = ground arith
at-indices i (suc j) (suc n) l = ground (arith, at-indices (suc i) j n (omega arith))

pub indices-IsOrder : (n : ℕ) → IsOrder n (indices 0 n)
indices-IsOrder n = (indices-AreDistinct 0 n, λ i l. (i, ground (arith, at-indices 0 i n l)))

abbrev mixture : Mixture Fixed Text
mixture = record {
  gmm = codes "gmm";
  means = (zero_f ∷ zero_f ∷ []) ∷ (plus unit ∷ zero_f ∷ []) ∷ (plus unit ∷ plus unit ∷ []) ∷ [];
  covariances = [] ∷ [] ∷ [] ∷ [];
  weights = plus 200_000 ∷ plus 300_000 ∷ plus 500_000 ∷ [];
  bic = zero_f;
}

abbrev pub kit : Toolkit Fixed Text Text
kit = record {
  mean = λ xc. (plus unit, zero_f);
  std = λ xc. (plus unit, zero_f);
  no_variance = λ zc. false;
  norm = λ x. zero_f;
  argsort = λ xs. indices 0 (length xs);
  fit_gmm = λ k zc. some mixture;
  fit_forest = λ xo. some (codes "forest");
  sklearn_version = codes "1.4";
  dump = λ g i. codes "blob";
}

pub sorts : (xs : List Fixed) → IsOrder (length xs) (kit.argsort xs)
sorts xs = indices-IsOrder (length xs)

abbrev pub calib : SeverityCalibration Fixed
calib = record { speed_ref = plus (5 * unit); scale = plus (2 * unit) }

abbrev pub reading : Reading Fixed
reading = record {
  magnitude = some (plus (3 * unit));
  accel_std = some (plus unit);
  gbar_in_max = some (plus unit);
  speed_mps = none;
}

abbrev pub std : Standardization Fixed
std = record {
  ratio_mean = plus unit;
  ratio_std = plus unit;
  gbar_mean = zero_f;
  gbar_std = zero_f;
}

abbrev pub cs : List (Component Fixed)
cs =
    record { mu = zero_f ∷ zero_f ∷ []; sigma = []; weight = plus 200_000 }
    ∷ record { mu = plus unit ∷ zero_f ∷ []; sigma = []; weight = plus 300_000 }
    ∷ record { mu = plus unit ∷ plus unit ∷ []; sigma = []; weight = plus 500_000 }
    ∷ []

abbrev pub model : SensorModel Fixed Text Text
model = record {
  model_version = codes "sensor_gmm_v1_a1";
  standardization = std;
  class_map = (0, class_not) ∷ (1, class_crack) ∷ (2, class_pothole) ∷ [];
  severity_calib = calib;
  k = 3;
  n_observations = 3;
  bic = some zero_f;
  sklearn_version = some (codes "1.4");
  gmm = some (codes "gmm");
  iforest = some (codes "forest");
  components = cs;
}

-- A density that is the same everywhere, and a forest with no outliers.
abbrev pub pdf : List Fixed → List Fixed → List (List Fixed) → Option Fixed
pdf z mu sigma = some (plus unit)

abbrev pub predict : Text → List Fixed → Option Bool
predict forest xo = some false

pub densities_exist : HasDensities pdf cs
densities_exist = (λ z. (plus unit, refl), (λ z. (plus unit, refl), (λ z. (plus unit, refl), tt)))

pub covers : Covers 3 model.class_map
unfolding class_of
covers zero l = (class_not, refl)
covers (suc zero) l = (class_crack, refl)
covers (suc (suc zero)) l = (class_pothole, refl)
covers (suc (suc (suc i))) l = absurd (omega arith)

abbrev pub posteriors : Posteriors Fixed
posteriors =
    (class_not, plus 200_000) ∷ (class_crack, plus 300_000) ∷ (class_pothole, plus 500_000) ∷ []

abbrev pub score : ScoreResult Fixed
score = record {
  sensor_class = class_pothole;
  p_pothole = plus 500_000;
  severity = plus 400_000;
  is_outlier = false;
}

-- With it, every component has a density.
pub any_dense : (qs : List (Component Fixed)) → HasDensities pdf qs
any_dense [] = tt
any_dense (c ∷ qs) = (λ z. (plus unit, refl), any_dense qs)

-- `joblib.load` of the two objects.
abbrev pub unpickle : Text → Option (Text × Text)
unpickle blob = some (codes "gmm", codes "forest")
