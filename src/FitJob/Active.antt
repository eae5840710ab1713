-- ===== src/FitJob/Active.antt =====
-- No run of the fit job leaves two models active.
use pothole_detection_server.Prelude.{◌≤◌, subst, sym, Option, List, Text, inl, inr}
use pothole_detection_server.Float.{Float}
use pothole_detection_server.Json.{Json}
use pothole_detection_server.Schema.{Observation}
use pothole_detection_server.Sensor.Fit.{Toolkit}
use pothole_detection_server.Sensor.Store.{ModelRow}
use pothole_detection_server.Sensor.Store.Active.{count_active, save_model_active}
use pothole_detection_server.FitJob.{FitEnd, FitSettings, run_fit_job}
use pothole_detection_server.FitJob.Models.{run_fit_job_outcome}

module _ {F G I : Type 0} ⦃d : Float F⦄ (transport : Json F → Option (Json F))
    (unpickle : Text → Option (G × I)) (kit : Toolkit F G I) (cfg : FitSettings F)
    (hex : Text) where
  abbrev IsFine : FitEnd × List (ModelRow F) → Type 0
  IsFine r = count_active r.1 ≤ 1

  pub run_fit_job_active :
      (before fetched : List (Observation F)) (rows : List (ModelRow F))
      → count_active rows ≤ 1
      → count_active (run_fit_job transport unpickle kit cfg hex before fetched rows).1 ≤ 1
  run_fit_job_active before fetched rows one =
      elim (run_fit_job_outcome transport unpickle kit cfg hex before fetched rows one) [
        | inl (inl same) ↦ subst IsFine (sym same) one
        | inl (inr same) ↦ subst IsFine (sym same) one
        | inr (v, rows', same, due, (model, blob, fitted, saved, version)) ↦
            let (fine, _) = save_model_active transport model blob rows one in
            let saved_fine : count_active rows' ≤ 1 =
              subst (λ r. count_active r.1 ≤ 1) saved fine in
            subst IsFine (sym same) saved_fine
      ]
