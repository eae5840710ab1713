-- ===== src/Sensor/Fit/Models.antt =====
-- What a fit gives: a model whose components all have a class.
use pothole_detection_server.Prelude.{
  ℕ, zero, suc, ◌+◌, ◌<◌, ◌≤◌, ◌≡◌, refl, subst, sym, some, List, [], ◌∷◌, arith, Text, inl, inr,
  Option-cases, length, map,
}
use pothole_detection_server.Float.{Float}
use pothole_detection_server.Sensor.{
  Standardization, SeverityCalibration, Component, SensorModel, class_of,
}
use pothole_detection_server.Sensor.Score.{Covers}
use pothole_detection_server.Sensor.Fit.{
  class_of_rank, assign_classes, Reading, Mixture, Toolkit, fitted, components_of, energy_order,
  model_of, fit_sensor_model,
}
use pothole_detection_server.Sensor.Fit.Outcome.{version_for, fit_sensor_model-IsFitOf}
use pothole_detection_server.Sensor.Fit.Energy.{at, AreDistinct, class_of-assign_classes}

-- The indices below `n`, each once.
abbrev pub IsOrder : ℕ → List ℕ → Type 0
IsOrder n order = AreDistinct order × ((i : ℕ) → i < n → (rank : ℕ) × (at rank order ≡ some i))

pub length-map : {A B : Type 0} (f : A → B) (xs : List A) → length (map f xs) ≡ length xs
length-map f [] = refl
length-map f (x ∷ xs) = omega (arith, length-map f xs)

length-components_of :
    {F : Type 0} (k : ℕ) (means : List (List F)) (covariances : List (List (List F)))
    (weights : List F) {cs : List (Component F)}
    → components_of k means covariances weights ≡ some cs
    → (length cs ≡ k) × (k ≤ length means)
unfolding components_of
length-components_of zero ms ss ws {cs = cs} e =
    (subst (λ c. length c ≡ 0) {x = []} {y = cs} (ground arith) refl, omega arith)
length-components_of (suc k) [] ss ws {cs = cs} e = absurd (ground arith)
length-components_of (suc k) (m ∷ ms) [] ws {cs = cs} e = absurd (ground arith)
length-components_of (suc k) (m ∷ ms) (s ∷ ss) [] {cs = cs} e = absurd (ground arith)
length-components_of (suc k) (m ∷ ms) (s ∷ ss) (w ∷ ws) {cs = cs} e =
    elim (Option-cases (components_of k ms ss ws)) [
      | inl failed ↦ absurd (ground arith)
      | inr (rest, found) ↦
          let (l, le) = length-components_of k ms ss ws {cs = rest} found in
          (
            subst (λ c. length c ≡ suc k) {x = record { mu = m; sigma = s; weight = w } ∷ rest}
                {y = cs} (ground arith) (omega (arith, l)),
            omega (arith, le),
          )
    ]

module _ {F G I : Type 0} where
  -- What a fitted model is like.
  abbrev pub IsComplete : ℕ → ℕ → SensorModel F G I → Type 0
  IsComplete k n model =
      (model.k ≡ k)
      × (model.n_observations ≡ n)
      × (length model.components ≡ k)
      × Covers k model.class_map

module _ {F G I : Type 0} ⦃d : Float F⦄ (kit : Toolkit F G I)
    (sorts : (xs : List F) → IsOrder (length xs) (kit.argsort xs)) where
  -- If `argsort` gives every index once, the component at a rank of the energy order has the class
  -- of that rank: `not` at the lowest, `crack` next, and `pothole` from there on.
  pub model_of-energy :
      (version : Text) (k n : ℕ) (calib : SeverityCalibration F) (std : Standardization F)
      (mix : Mixture F G) (forest : I) (cs : List (Component F)) (rank i : ℕ)
      → at rank (energy_order kit mix.means) ≡ some i
      → class_of i (model_of kit version k n calib std mix forest cs).class_map
        ≡ some (class_of_rank rank)
  unfolding model_of
  model_of-energy version k n calib std mix forest cs rank i e =
      subst
        (λ r.
          class_of i (assign_classes 0 (energy_order kit mix.means) []) ≡ some (class_of_rank r))
        {x = 0 + rank} {y = rank} (omega arith)
        (class_of-assign_classes rank 0 (energy_order kit mix.means) [] {i = i}
          (sorts (map kit.norm mix.means)).0 e)

  model_of-IsComplete :
      (version : Text) (k n : ℕ) (calib : SeverityCalibration F) (std : Standardization F)
      (mix : Mixture F G) (forest : I) (cs : List (Component F))
      → components_of k mix.means mix.covariances mix.weights ≡ some cs
      → IsComplete k n (model_of kit version k n calib std mix forest cs)
  unfolding energy_order model_of
  model_of-IsComplete version k n calib std mix forest cs e =
      let (l, le) = length-components_of k mix.means mix.covariances mix.weights {cs = cs} e in
      let lm = length-map kit.norm mix.means in
      (
        refl,
        refl,
        l,
        λ i lt.
            let (rank, found) = (sorts (map kit.norm mix.means)).1 i (omega (arith, lm, le)) in
            (class_of_rank rank, model_of-energy version k n calib std mix forest cs rank i found),
      )

  -- If `argsort` gives every index once, then a fit that gives a model had at least `k` rows; the
  -- model has `k` components, all with a class, and counts the rows.
  pub fit_sensor_model-IsComplete :
      (hex : Text) (k : ℕ) (calib : SeverityCalibration F) (rows : List (Reading F))
      (model : SensorModel F G I) (blob : Text)
      → fit_sensor_model kit hex k calib rows ≡ fitted model blob
      → (k ≤ length rows) × IsComplete k (length rows) model
  fit_sensor_model-IsComplete hex k calib rows model blob e =
      let (enough, (std, mix, forest, cs, ec, em, _)) =
        fit_sensor_model-IsFitOf kit hex k calib rows model blob e in
      (
        enough,
        subst (IsComplete k (length rows)) (sym em)
            (model_of-IsComplete (version_for hex) k (length rows) calib std mix forest cs ec),
      )
