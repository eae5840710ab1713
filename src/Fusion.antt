-- ===== src/Fusion.antt =====
-- app/fusion/service.py, the fusion job: scoring the observations that have no score, and pairing
-- the frames that are not processed with the nearest observation of their device.
pub mod Run
pub mod Job
pub mod Nearest
pub mod Pairs
pub mod Backlog
pub mod Ids
pub mod Scores
pub mod Refers
pub mod Samples
mod Examples
use pothole_detection_server.Prelude.{
  ℕ, zero, suc, ◌+◌, ◌-◌, ◌*◌, Bool, true, false, ◌&&◌, ◌||◌, Option, none, some, List, [], ◌∷◌,
  ◌++◌, ltb, ◌==◌, if◌then◌else◌, Text, same, length, take, map,
}
use pothole_detection_server.Float.{Float}
use pothole_detection_server.Schema.{Observation, Frame}

-- A row of fusion_pair.
pub record FusionPair (F : Type 0) : Type 0 where
  pub event_client_id : Text
  pub frame_client_id : Text
  pub fused_confidence : F
  pub severity : F
  pub delta_ms : F
  pub delta_m : F
  pub fusion_run_id : Text

-- `metrics_jsonb`
pub record RunMetrics : Type 0 where
  pub frames : ℕ
  pub pairs : ℕ
  pub sensor_model_version : Option Text

-- A row of fusion_run.
pub record FusionRun (F : Type 0) : Type 0 where
  pub run_id : Text
  pub engine_version : Text
  pub weights_jsonb : List (Text × F)
  pub inputs_count : ℕ
  pub completed_at : Option ℕ
  pub outputs_count : Option ℕ
  pub metrics_jsonb : Option RunMetrics

-- The tables that the job uses.
pub record Tables (F : Type 0) : Type 0 where
  pub asset_observation : List (Observation F)
  pub asset_frame : List (Frame F)
  pub fusion_pair : List (FusionPair F)
  pub fusion_run : List (FusionRun F)

-- The settings of config.py that the job reads.
pub record JobSettings (F : Type 0) : Type 0 where
  pub fusion_batch_size : ℕ
  pub fusion_window_ms : ℕ
  pub fusion_window_m : F

-- ORDER BY
unfoldable pub insert_by {ℓ} : {A : Type ℓ} → (A → A → Bool) → A → List A → List A
insert_by before x [] = x ∷ []
insert_by before x (y ∷ ys) =
    let rest = insert_by before x ys in if before x y then x ∷ y ∷ ys else y ∷ rest

unfoldable pub sort_by {ℓ} : {A : Type ℓ} → (A → A → Bool) → List A → List A
sort_by before [] = []
sort_by before (x ∷ xs) = insert_by before x (sort_by before xs)

-- WHERE
unfoldable pub filter {ℓ} : {A : Type ℓ} → (A → Bool) → List A → List A
filter p [] = []
filter p (x ∷ xs) = let rest = filter p xs in if p x then x ∷ rest else rest

-- `= ANY($1::text[])`
unfoldable pub any_of : Text → List Text → Bool
any_of k [] = false
any_of k (j ∷ js) = same j k || any_of k js

abbrev pub is_null {ℓ} : {A : Type ℓ} → Option A → Bool
is_null none = true
is_null (some a) = false

-- `abs` of the difference of two instants
abbrev pub gap : ℕ → ℕ → ℕ
gap a b = (a - b) + (b - a)

-- `precedes` is the order of texts in the database.
module _ (precedes : Text → Text → Bool) where
  -- ORDER BY received_at ASC, client_id ASC
  abbrev pub received_before : ℕ × Text → ℕ × Text → Bool
  received_before (t, k) (t', k') = ltb t t' || (t == t' && precedes k k')

  module _ {F : Type 0} where
    -- `_SELECT_FRAME_BATCH_SQL`
    pub select_frame_batch : ℕ → List (Frame F) → List Text
    select_frame_batch limit frames = take limit (
        map (λ f. f.client_id)
          (sort_by
            (λ f g. received_before (f.received_at, f.client_id) (g.received_at, g.client_id))
            (filter (λ f. is_null f.processed_at) frames)))

    -- `_SELECT_UNSCORED_SQL`
    unfoldable pub select_unscored : ℕ → List (Observation F) → List (Observation F)
    select_unscored limit rows = take limit (
        sort_by (λ o p. received_before (o.received_at, o.client_id) (p.received_at, p.client_id))
          (filter (λ o. is_null o.scored_at) rows))

  -- `distance` is ST_Distance, and `within` is ST_DWithin
  module _ {F : Type 0} ⦃d : Float F⦄ (distance : F × F → F × F → F)
      (within : F × F → F × F → F → Bool) (cfg : JobSettings F) where
    -- The condition of the JOIN.
    pub joins : Frame F → Observation F → Bool
    joins f o =
        same o.device_id f.device_id
        && (within f.geom o.geom cfg.fusion_window_m
            && ltb (gap f.ts_utc o.ts_utc) (1000 * cfg.fusion_window_ms))

    -- The ORDER BY of ROW_NUMBER() for the frame: time, then distance, then id.
    pub nearer : Frame F → Observation F → Observation F → Bool
    nearer f o p =
        let t = gap f.ts_utc o.ts_utc in
        let t' = gap f.ts_utc p.ts_utc in
        let m = distance f.geom o.geom in
        let m' = distance f.geom p.geom in
        ltb t t' || (t == t' && (d.lt m m' || (d.eq m m' && precedes o.client_id p.client_id)))

    -- The best candidate so far, after one more observation.
    pub nearest_step : Frame F → Option (Observation F) → Observation F → Option (Observation F)
    nearest_step f none o = if joins f o then some o else none
    nearest_step f (some b) o = if joins f o && nearer f o b then some o else some b

    -- The candidate with `rn = 1`, given the best so far.
    unfoldable pub nearest_from :
        Frame F → Option (Observation F) → List (Observation F) → Option (Observation F)
    nearest_from f best [] = best
    nearest_from f best (o ∷ os) = nearest_from f (nearest_step f best o) os

    -- `_PAIRING_SQL`
    unfoldable pub pairing :
        List Text → List (Observation F) → List (Frame F) → List (Frame F × Observation F)
    pairing ids rows [] = []
    pairing ids rows (f ∷ fs) =
        let rest = pairing ids rows fs in
        if any_of f.client_id ids
        then elim (nearest_from f none rows) [ none ↦ rest | some o ↦ (f, o) ∷ rest ]
        else rest
