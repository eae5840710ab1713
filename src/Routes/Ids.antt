-- ===== src/Routes/Ids.antt =====
-- No request loses a row or stores a client id twice.
use pothole_detection_server.Prelude.{◌≡◌, refl, ap, Bool, Option, List, Text, arith, ◌⊎◌, inl, inr}
use pothole_detection_server.Http.{Outcome-cases}
use pothole_detection_server.Headers.{require_device_id, require_version_v1}
use pothole_detection_server.RateLimit as Rate
use pothole_detection_server.RateLimit.{check_rate_limit}
use pothole_detection_server.Float.{Float}
use pothole_detection_server.Schema.{DateTime, Observation, Frame}
use pothole_detection_server.Events.{Refusal, EventPayload, insert_events}
use pothole_detection_server.Events.Changes.{Changes, Changes-eq, untouched}
use pothole_detection_server.Events.Ids.{insert_events-Changes}
use pothole_detection_server.Files.{Bytes, Disk}
use pothole_detection_server.Frames.{FrameMetadata, store_frame}
use pothole_detection_server.Frames.Ids.{store_frame-Grows}
use pothole_detection_server.Fusion.Ids.{Grows, Grows-refl, Grows-eq, frame_ids}
use pothole_detection_server.Routes.{
  Settings, Server, Clock, MetadataPart, ingest_events, post_events, read_metadata, check_jpeg,
  ingest_frame, post_frames,
}

module _ (fromisoformat : Text → Option DateTime) {F R : Type 0}
    (refuses : List (Observation F) → Observation F → Option Refusal) (cfg : Settings)
    (clock : Clock) where
  -- The table is as it was, or as `insert_events` leaves it; the frames stay.
  ingest_events_tables :
      (device_id : Text) (es : List (EventPayload F)) (s : Server F R)
      → let s' = (ingest_events fromisoformat refuses cfg clock device_id es s).1 in
        let (_, t) =
          insert_events fromisoformat refuses device_id clock.db_now es s.asset_observation in
        (s'.frames ≡ s.frames)
        × ((s'.asset_observation ≡ s.asset_observation) ⊎ (s'.asset_observation ≡ t))
  unfolding ingest_events
  ingest_events_tables device_id es s = ground arith

  ingest_events-Changes :
      (device_id : Text) (es : List (EventPayload F)) (s : Server F R)
      → let s' = (ingest_events fromisoformat refuses cfg clock device_id es s).1 in
        (s'.frames ≡ s.frames) × Changes s.asset_observation s'.asset_observation
  ingest_events-Changes device_id es s =
      let (frames, table) = ingest_events_tables device_id es s in
      (
        frames,
        elim table [
          | inl kept ↦ Changes-eq kept
          | inr stored ↦ rw stored (
              insert_events-Changes fromisoformat refuses device_id clock.db_now es
                s.asset_observation)
        ],
      )

  -- A request for events inserts observations, if it does anything; no frame changes.
  pub post_events-Changes :
      (x v : Option Text) (es : List (EventPayload F)) (s : Server F R)
      → let s' = (post_events fromisoformat refuses cfg clock x v es s).1 in
        (s'.frames ≡ s.frames) × Changes s.asset_observation s'.asset_observation
  unfolding post_events
  post_events-Changes x v es s = elim (Outcome-cases (require_device_id x)) [
    | inr (e, bad) ↦ rw (post_events, bad) (refl, untouched)
    | inl (d, good) ↦ elim (Outcome-cases (require_version_v1 v)) [
      | inr (e, bad) ↦ rw (post_events, good, bad) (refl, untouched)
      | inl (version, fine) ↦ rw (post_events, good, fine) (ingest_events-Changes d es s)
    ]
  ]

module _ (fromisoformat : Text → Option DateTime) {F J R : Type 0} ⦃d : Float F⦄
    (dumps : List J → Text) (loads : Bytes → MetadataPart F J)
    (upload : Text → Bytes → R → Option R) (refuses : Frame F → Bool) (cfg : Settings)
    (clock : Clock) (disk : Disk) where
  -- The frames are as they were, or as `store_frame` leaves them; the observations stay.
  ingest_frame_tables :
      (device_id : Text) (metadata jpeg : Bytes) (s : Server F R)
      → let s' =
          (ingest_frame fromisoformat dumps loads upload refuses cfg clock disk device_id metadata
            jpeg s).1 in
        (s'.asset_observation ≡ s.asset_observation)
        × ((s'.frames ≡ s.frames)
            ⊎ ((m : FrameMetadata F J) × (s'.frames
                  ≡ (store_frame fromisoformat dumps upload refuses cfg.storage disk device_id
                      clock.db_now m jpeg s.frames).1)))
  unfolding ingest_frame
  ingest_frame_tables device_id metadata jpeg s =
      elim (Outcome-cases (read_metadata fromisoformat loads metadata)) [
        | inr (e, bad) ↦ ground arith
        | inl (m, good) ↦ elim (Outcome-cases (check_jpeg cfg jpeg)) [
          | inr (e, bad) ↦ ground arith
          | inl (u, fine) ↦
              elim (Outcome-cases
                (check_rate_limit cfg.rate_limits device_id Rate.frames 1 clock.time s.limiter).0) [
                  | inr (e, bad) ↦ ground arith
                  | inl (u', admitted) ↦ (ground arith, inr (m, ground arith))
                ]
        ]
      ]

  ingest_frame-Grows :
      (device_id : Text) (metadata jpeg : Bytes) (s : Server F R)
      → let s' =
          (ingest_frame fromisoformat dumps loads upload refuses cfg clock disk device_id metadata
            jpeg s).1 in
        (s'.asset_observation ≡ s.asset_observation)
        × Grows (frame_ids s.frames.asset_frame) (frame_ids s'.frames.asset_frame)
  ingest_frame-Grows device_id metadata jpeg s =
      let (observations, frames) = ingest_frame_tables device_id metadata jpeg s in
      (
        observations,
        elim frames [
          | inl kept ↦ Grows-eq (ap (λ fs. frame_ids fs.asset_frame) kept)
          | inr (m, stored) ↦ rw stored (
              store_frame-Grows fromisoformat dumps upload refuses cfg.storage disk device_id
                clock.db_now m jpeg s.frames)
        ],
      )

  -- A request for a frame keeps every frame and stores no client id twice; no observation changes.
  pub post_frames-Grows :
      (x v : Option Text) (metadata jpeg : Bytes) (s : Server F R)
      → let s' =
          (post_frames fromisoformat dumps loads upload refuses cfg clock disk x v metadata jpeg
            s).1 in
        (s'.asset_observation ≡ s.asset_observation)
        × Grows (frame_ids s.frames.asset_frame) (frame_ids s'.frames.asset_frame)
  unfolding post_frames
  post_frames-Grows x v metadata jpeg s = elim (Outcome-cases (require_device_id x)) [
    | inr (e, bad) ↦ rw (post_frames, bad) (refl, Grows-refl (frame_ids s.frames.asset_frame))
    | inl (id, good) ↦ elim (Outcome-cases (require_version_v1 v)) [
      | inr (e, bad) ↦
          rw (post_frames, good, bad) (refl, Grows-refl (frame_ids s.frames.asset_frame))
      | inl (version, fine) ↦ rw (post_frames, good, fine) (ingest_frame-Grows id metadata jpeg s)
    ]
  ]
