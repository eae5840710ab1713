-- ===== src/Fusion/Job/Keeps.antt =====
-- What any transaction of the fusion job keeps: the ids of the tables, and the pairs' references.
use pothole_detection_server.Prelude.{
  ℕ, ◌≡◌, refl, subst, sym, Bool, Option, none, some, List, [], ◌∷◌, Text, inl, inr, Option-cases,
  length,
}
use pothole_detection_server.Float.{Float}
use pothole_detection_server.Schema.{Observation}
use pothole_detection_server.Engine.{FusionSettings, get_engine}
use pothole_detection_server.Sensor.{SensorModel}
use pothole_detection_server.Fusion.{Tables, JobSettings, pairing, select_frame_batch}
use pothole_detection_server.Fusion.Run.{fuse_pairs}
use pothole_detection_server.Fusion.Pairs.{IsKeyed}
use pothole_detection_server.Fusion.Ids.{observation_ids, frame_ids}
use pothole_detection_server.Fusion.Refers.{AreOf, fuse_pairs-AreOf, pairing-AreOf}
use pothole_detection_server.Fusion.Scores.{score_unscored-Changes}
use pothole_detection_server.Events.Changes.{Changes, untouched}
use pothole_detection_server.Fusion.Job.{
  RunContext, version_of, insert_run, fused_tables, fuse_batch, pair_and_fuse, score_with,
}
use pothole_detection_server.Fusion.Job.Drain.{ids-mark_processed}

-- No pair stands twice, and every pair is of an observation and a frame that are stored.
abbrev pub ArePaired : {F : Type 0} → Tables F → Type 0
ArePaired t =
    IsKeyed t.fusion_pair
    × AreOf (observation_ids t.asset_observation) (frame_ids t.asset_frame) t.fusion_pair

-- The same observations, and frames with the same ids, with well-formed pairs.
abbrev pub KeepsTables : {F : Type 0} → Tables F → Tables F → Type 0
KeepsTables t t' =
    (t'.asset_observation ≡ t.asset_observation)
    × (frame_ids t'.asset_frame ≡ frame_ids t.asset_frame)
    × ArePaired t'

module _ {F G I : Type 0} ⦃d : Float F⦄ (precedes : Text → Text → Bool)
    (distance : F × F → F × F → F) (within : F × F → F × F → F → Bool) (to_ms : ℕ → ℕ → F)
    (cfg : JobSettings F) (engines : FusionSettings F) (run : RunContext F) where
  fuse_batch-KeepsTables :
      (model : Option (SensorModel F G I)) (ids : List Text) (t : Tables F)
      → ArePaired t
      → KeepsTables t (fuse_batch precedes distance within to_ms cfg engines run model ids t).1
  unfolding fuse_batch fused_tables
  fuse_batch-KeepsTables model ids t (key, refs) =
      let engine = get_engine engines (version_of model) in
      let candidates = pairing precedes distance within cfg ids t.asset_observation t.asset_frame in
      elim (Option-cases (insert_run run.run_id engine (length ids) t.fusion_run)) [
        | inl refused ↦ rw (fuse_batch, refused) (refl, refl, (key, refs))
        | inr (runs, added) ↦
            elim (Option-cases (
              fuse_pairs distance to_ms run.runtime_ms engine run.run_id candidates
                t.fusion_pair)) [
                  | inl raised ↦ rw (fuse_batch, added, raised) (refl, refl, (key, refs))
                  | inr (pairs, e) ↦
                      let (key', refs') =
                        fuse_pairs-AreOf distance to_ms run.runtime_ms engine run.run_id
                          (observation_ids t.asset_observation) (frame_ids t.asset_frame) candidates
                          t.fusion_pair pairs
                          (pairing-AreOf precedes distance within cfg ids t.asset_observation
                            t.asset_frame)
                          e key refs in
                      let same_ids = ids-mark_processed ids run.now t.asset_frame in
                      rw (fuse_batch, added, e, fused_tables)
                        (
                          refl,
                          same_ids,
                          (
                            key',
                            subst (λ fs. AreOf (observation_ids t.asset_observation) fs pairs)
                                (sym same_ids) refs',
                          ),
                        )
                ]
      ]

  -- Any pairing transaction, one that is rolled back included, changes no observation and no id of
  -- a frame, and keeps the pairs well-formed.
  pub pair_and_fuse-KeepsTables :
      (model : Option (SensorModel F G I)) (t : Tables F)
      → ArePaired t
      → KeepsTables t (pair_and_fuse precedes distance within to_ms cfg engines run model t).1
  unfolding pair_and_fuse
  pair_and_fuse-KeepsTables model t paired =
      go (select_frame_batch precedes cfg.fusion_batch_size t.asset_frame) refl
    where
      go :
          (ids : List Text)
          → select_frame_batch precedes cfg.fusion_batch_size t.asset_frame ≡ ids
          → KeepsTables t (pair_and_fuse precedes distance within to_ms cfg engines run model t).1
      go [] e = rw (pair_and_fuse, e) (refl, refl, paired)
      go (id ∷ ids) e = rw (pair_and_fuse, e) (fuse_batch-KeepsTables model (id ∷ ids) t paired)

  module _ (pdf : List F → List F → List (List F) → Option F)
      (predict : I → List F → Option Bool) where
    pub score_with-Changes :
        (model : Option (SensorModel F G I)) (rows : List (Observation F))
        → Changes rows
            (score_with precedes distance within to_ms cfg engines run pdf predict model rows).1
    unfolding score_with
    score_with-Changes none rows = untouched
    score_with-Changes (some m) rows =
        score_unscored-Changes pdf predict m run.now precedes cfg.fusion_batch_size rows
