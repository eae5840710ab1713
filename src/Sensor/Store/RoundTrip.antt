-- ===== src/Sensor/Store/RoundTrip.antt =====
-- A saved model is loaded as it was, and scores every observation as it did.
use pothole_detection_server.Prelude.{
  ℕ, suc, ◌≤◌, ◌≡◌, refl, Bool, true, Option, none, some, List, [], ◌∷◌, arith, Text, inl, inr,
  Option-cases, >>=-eq-some, foldl,
}
use pothole_detection_server.Float.{Float, zero_f, divide}
use pothole_detection_server.Json.{Json, array, object, Agrees}
use pothole_detection_server.Sensor.{
  Component, ClassMap, SensorModel, Posteriors, class_of, add_posterior, add_posteriors, densities,
  class_posteriors, standardized, score_observation,
}
use pothole_detection_server.Sensor.Store.{
  ModelRow, standardization_to_jsonb, severity_to_jsonb, components_to_items, class_map_to_fields,
}
use pothole_detection_server.Sensor.Store.Table.{
  model_row, save_model, load_blob, model_of_row, load_active_model,
}
use pothole_detection_server.Sensor.Store.Active.{count_active, save_model_active}
use pothole_detection_server.Sensor.Store.Copies.{
  standardization_copy, severity_copy, components_copy, class_map_copy,
}

module _ {F : Type 0} where
  -- What a database keeps of a JSON value: all but the order of keys.
  abbrev pub KeepsJson : (Json F → Option (Json F)) → Type 0
  KeepsJson transport = (v w : Json F) → transport v ≡ some w → Agrees v w

module _ {F G I : Type 0} where
  -- The model `m` in place of `model`: the same fields, and a class map with the same classes.
  pub record IsCopy (model m : SensorModel F G I) : Type 0 where
    pub same_version : m.model_version ≡ model.model_version
    pub same_standardization : m.standardization ≡ model.standardization
    pub same_classes : (i : ℕ) → class_of i m.class_map ≡ class_of i model.class_map
    pub same_severity_calib : m.severity_calib ≡ model.severity_calib
    pub same_k : m.k ≡ model.k
    pub same_n_observations : m.n_observations ≡ model.n_observations
    pub same_bic : m.bic ≡ model.bic
    pub same_sklearn_version : m.sklearn_version ≡ model.sklearn_version
    pub same_gmm : m.gmm ≡ model.gmm
    pub same_iforest : m.iforest ≡ model.iforest
    pub same_components : m.components ≡ model.components

  abbrev row_with : SensorModel F G I → Text → Json F → Json F → Json F → Json F → ModelRow F
  row_with model blob standardization components class_map severity_calib = record {
    model_version = model.model_version;
    n_observations = model.n_observations;
    k = model.k;
    bic = model.bic;
    standardization_jsonb = standardization;
    components_jsonb = components;
    class_map_jsonb = class_map;
    severity_calib_jsonb = severity_calib;
    model_blob = some blob;
    sklearn_version = model.sklearn_version;
    is_active = true;
  }

  module _ (transport : Json F → Option (Json F)) (keeps : KeepsJson transport)
      (unpickle : Text → Option (G × I)) (model : SensorModel F G I) (blob : Text) where
    -- The row of a model is read back as a copy of it.
    model_of_row-model_row :
        (r : ModelRow F) (g : G) (i : I)
        → model_row transport model blob ≡ some r
        → unpickle blob ≡ some (g, i)
        → model.gmm ≡ some g
        → model.iforest ≡ some i
        → (m : SensorModel F G I) × (model_of_row unpickle r ≡ some m) × IsCopy model m
    unfolding model_row model_of_row load_blob
    model_of_row-model_row r g i e b eg ei =
        let (w1, e1, f1) =
          >>=-eq-some (transport (standardization_to_jsonb model.standardization)) _ e in
        let (w2, e2, f2) =
          >>=-eq-some (transport (array (components_to_items model.components))) _ f1 in
        let (w3, e3, f3) =
          >>=-eq-some (transport (object (class_map_to_fields model.class_map))) _ f2 in
        let (w4, e4, er) = >>=-eq-some (transport (severity_to_jsonb model.severity_calib)) _ f3 in
        let (classes, ec, same) = class_map_copy model.class_map (keeps _ w3 e3) in
        let row = row_with model blob w1 w2 w3 w4 in
        let found : r ≡ row = cc in
        (
          record model { class_map = classes },
          rw (
            found,
            model_of_row,
            standardization_copy model.standardization (keeps _ w1 e1),
            components_copy model.components (keeps _ w2 e2),
            ec,
            severity_copy model.severity_calib (keeps _ w4 e4),
            b,
            eg,
            ei,
          ),
          record {
            same_version = refl;
            same_standardization = refl;
            same_classes = same;
            same_severity_calib = refl;
            same_k = refl;
            same_n_observations = refl;
            same_bic = refl;
            same_sklearn_version = refl;
            same_gmm = refl;
            same_iforest = refl;
            same_components = refl;
          },
        )

    -- If JSONB keeps the JSON values up to the order of keys, `joblib.load` reads the blob as the
    -- two objects of the model, and at most one model was active, then after a `save_model` that
    -- raises nothing, `load_active_model` gives a copy of the saved model.
    pub load_active_model-save_model :
        (rows : List (ModelRow F)) (g : G) (i : I)
        → count_active rows ≤ 1
        → unpickle blob ≡ some (g, i)
        → model.gmm ≡ some g
        → model.iforest ≡ some i
        → (save_model transport model blob rows).0 ≡ true
        → (m : SensorModel F G I) × (load_active_model unpickle
              (save_model transport model blob rows).1
            ≡ some (some m))
          × IsCopy model m
    unfolding load_active_model
    load_active_model-save_model rows g i one b eg ei saved =
        elim (save_model_active transport model blob rows one).1 [
          | inl (failed, _, _) ↦ absurd (cc)
          | inr (_, _, (r, er, active)) ↦
              let (m, em, copy) = model_of_row-model_row r g i er b eg ei in
              (m, rw (active, load_active_model, em), copy)
        ]

module _ {F : Type 0} ⦃d : Float F⦄ where
  add_posteriors_same :
      (m m' : ClassMap) (total : F) (i : ℕ) (xs : List F) (ps : Posteriors F)
      → ((j : ℕ) → class_of j m' ≡ class_of j m)
      → add_posteriors m' total i xs ps ≡ add_posteriors m total i xs ps
  unfolding add_posteriors
  add_posteriors_same m m' total i [] ps h = refl
  add_posteriors_same m m' total i (x ∷ xs) ps h =
      rw (add_posteriors, h i)
        (λ j. elim (class_of i m) [
          | none ↦ none
          | some cls ↦ elim (divide x total) [
            | none ↦ none
            | some q ↦ add_posteriors_same m m' total (suc i) xs (add_posterior cls q ps) h j
          ]
        ])

  pub class_posteriors_same :
      (pdf : List F → List F → List (List F) → Option F) (m m' : ClassMap) (cs : List (Component F))
      (z : List F)
      → ((j : ℕ) → class_of j m' ≡ class_of j m)
      → class_posteriors pdf m' cs z ≡ class_posteriors pdf m cs z
  unfolding class_posteriors
  class_posteriors_same pdf m m' cs z h = elim (Option-cases (densities pdf z cs)) [
    | inl failed ↦ ground arith
    | inr (xs, e) ↦ ground (arith, add_posteriors_same m m' (foldl d.add zero_f xs) 0 xs [] h)
  ]

module _ {F G I : Type 0} ⦃d : Float F⦄ (pdf : List F → List F → List (List F) → Option F)
    (predict : I → List F → Option Bool) where
  -- A copy of a model scores every observation as the model does, exceptions included.
  pub score_observation-IsCopy :
      (model m : SensorModel F G I) (magnitude accel_std gbar_in_max speed_mps : Option F)
      → IsCopy model m
      → score_observation pdf predict m magnitude accel_std gbar_in_max speed_mps
        ≡ score_observation pdf predict model magnitude accel_std gbar_in_max speed_mps
  unfolding score_observation
  score_observation-IsCopy model m a b c e copy =
      elim (Option-cases (standardized model.standardization a b c)) [
        | inl failed ↦ ground arith
        | inr (z, ez) ↦ ground (
          arith,
          class_posteriors_same pdf model.class_map m.class_map model.components z
              copy.same_classes,
        )
      ]
