-- ===== src/Sensor/Store/Active.antt =====
-- At most one model is active, and a saved model is the active one.
use pothole_detection_server.Prelude.{
  ℕ, ◌+◌, ◌≤◌, ◌≡◌, refl, Bool, true, false, ◌||◌, Option, none, some, List, [], ◌∷◌, ◌++◌,
  if◌then◌else◌, arith, Text, same, ◌⊎◌, inl, inr, Bool-cases, Option-cases,
}
use pothole_detection_server.Json.{Json}
use pothole_detection_server.Sensor.{SensorModel}
use pothole_detection_server.Sensor.Store.{ModelRow}
use pothole_detection_server.Sensor.Store.Table.{
  deactivate, conflicts, insert_model, active_row, model_row, save_model,
}

module _ {F : Type 0} where
  -- How many rows are active.
  abbrev pub count_active : List (ModelRow F) → ℕ
  count_active [] = 0
  count_active (r ∷ rows) = (if r.is_active then 1 else 0) + count_active rows

  -- A model of the version is in the table.
  abbrev pub has_version : Text → List (ModelRow F) → Bool
  has_version v [] = false
  has_version v (r ∷ rows) = same r.model_version v || has_version v rows

  count_active-deactivate : (rows : List (ModelRow F)) → count_active (deactivate rows) ≡ 0
  unfolding deactivate
  count_active-deactivate [] = refl
  count_active-deactivate (r ∷ rows) = ground (arith, count_active-deactivate rows)

  conflicts-deactivate :
      (r : ModelRow F) (rows : List (ModelRow F))
      → conflicts r (deactivate rows) ≡ has_version r.model_version rows
  unfolding deactivate conflicts
  conflicts-deactivate r [] = refl
  conflicts-deactivate r (q ∷ rows) = ground (arith, conflicts-deactivate r rows)

  count_active-append :
      (rows : List (ModelRow F)) (r : ModelRow F)
      → count_active (rows ++ (r ∷ [])) ≡ count_active rows + (if r.is_active then 1 else 0)
  count_active-append [] r = ground arith
  count_active-append (q ∷ rows) r = ground (arith, count_active-append rows r)

  active_row-append :
      (rows : List (ModelRow F)) (r : ModelRow F)
      → r.is_active ≡ true
      → count_active rows ≡ 0
      → active_row (rows ++ (r ∷ [])) ≡ some r
  unfolding active_row
  active_row-append [] r a n = ground arith
  active_row-append (q ∷ rows) r a n = ground (arith, active_row-append rows r a)

module _ {F G I : Type 0} (transport : Json F → Option (Json F)) (model : SensorModel F G I)
    (blob : Text) where
  model_row_fields :
      {r : ModelRow F}
      → model_row transport model blob ≡ some r
      → (r.is_active ≡ true) × (r.model_version ≡ model.model_version)
  unfolding model_row
  model_row_fields e = ground arith

  save_model_refused :
      (rows : List (ModelRow F))
      → model_row transport model blob ≡ none
      → save_model transport model blob rows ≡ (false, rows)
  unfolding save_model
  save_model_refused rows e = rw (e, save_model)

  pub save_model_row :
      (rows : List (ModelRow F)) {r : ModelRow F}
      → model_row transport model blob ≡ some r
      → save_model transport model blob rows ≡ (
          if has_version r.model_version rows
          then (false, rows)
          else (true, deactivate rows ++ (r ∷ [])))
  unfolding save_model insert_model
  save_model_row rows {r = r} e = ground (arith, conflicts-deactivate r rows)

  -- If at most one model was active before `save_model`, at most one is active after it. Either it
  -- raises, because a JSON value is refused or the version is taken, and the table is as it was; or
  -- the row of the model is the active one.
  pub save_model_active :
      (rows : List (ModelRow F))
      → count_active rows ≤ 1
      → let (saved, rows') = save_model transport model blob rows in
        (count_active rows' ≤ 1)
        × (((saved ≡ false)
              × (rows' ≡ rows)
              × ((model_row transport model blob ≡ none)
                  ⊎ (has_version model.model_version rows ≡ true)))
            ⊎ ((saved ≡ true)
                × (has_version model.model_version rows ≡ false)
                × ((r : ModelRow F) × (model_row transport model blob ≡ some r)
                    × (active_row rows' ≡ some r))))
  save_model_active rows one = elim (Option-cases (model_row transport model blob)) [
    | inl refused ↦ rw (save_model_refused rows refused) (one, inl (refl, refl, inl refused))
    | inr (r, e) ↦
        let (active, version) = model_row_fields {r = r} e in
        elim (Bool-cases (has_version r.model_version rows)) [
          | inl taken ↦
              rw (save_model_row rows e, taken) (one, inl (refl, refl, inr (rw (← version) taken)))
          | inr free ↦
              let none_active = count_active-deactivate rows in
              rw (save_model_row rows e, free)
                (
                  ground (arith, count_active-append (deactivate rows) r),
                  inr (
                    refl,
                    rw (← version) free,
                    (r, e, active_row-append (deactivate rows) r active none_active),
                  ),
                )
        ]
  ]
