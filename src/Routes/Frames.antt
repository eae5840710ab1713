-- ===== src/Routes/Frames.antt =====
-- The frames endpoint: what passes its checks, and what a refused request leaves behind.
use pothole_detection_server.Prelude.{
  ◌≤◌, ◌≡◌, ◌≢◌, refl, Bool, true, Option, List, [], ◌∷◌, arith, Text, length, take, inl, inr,
}
use pothole_detection_server.Http.{Outcome, ok, raise, HttpException, Outcome-cases}
use pothole_detection_server.RateLimit as Rate
use pothole_detection_server.RateLimit.{check_rate_limit}
use pothole_detection_server.Float.{Float}
use pothole_detection_server.Schema.{DateTime, Frame}
use pothole_detection_server.Files.{Bytes, Disk}
use pothole_detection_server.Frames.{FrameMetadata, FrameUploadResponse, validate_frame}
use pothole_detection_server.Frames.Store.{store_frame_fails}
use pothole_detection_server.Routes.{
  Settings, Server, Clock, MetadataPart, not_mapping, fields, unhandled, has_magic, read_metadata,
  check_jpeg, ingest_frame,
}

module _ (fromisoformat : Text → Option DateTime) {F J : Type 0} ⦃d : Float F⦄
    (loads : Bytes → MetadataPart F J) where
  read_metadata-ok :
      (metadata : Bytes) (m : FrameMetadata F J)
      → read_metadata fromisoformat loads metadata ≡ ok m
      → (loads metadata ≡ fields m) × (validate_frame fromisoformat m ≡ true)
  unfolding read_metadata
  read_metadata-ok metadata m = by_part (loads metadata) refl
    where
      by_part :
          (part : MetadataPart F J)
          → loads metadata ≡ part
          → read_metadata fromisoformat loads metadata ≡ ok m
          → (loads metadata ≡ fields m) × (validate_frame fromisoformat m ≡ true)
      by_part part e h = ground arith

check_jpeg-ok :
    (cfg : Settings) (jpeg : Bytes)
    → check_jpeg cfg jpeg ≡ ok tt
    → (1 ≤ length jpeg)
      × (length jpeg ≤ cfg.max_frame_size_bytes)
      × (take 3 jpeg ≡ 0xff ∷ 0xd8 ∷ 0xff ∷ [])
unfolding check_jpeg has_magic
check_jpeg-ok cfg jpeg h = ground arith

module _ (fromisoformat : Text → Option DateTime) {F J R : Type 0} ⦃d : Float F⦄
    (dumps : List J → Text) (loads : Bytes → MetadataPart F J)
    (upload : Text → Bytes → R → Option R) (refuses : Frame F → Bool) (cfg : Settings)
    (clock : Clock) (disk : Disk) where
  abbrev frame_request :
      Text → Bytes → Bytes → Server F R → Outcome (FrameUploadResponse F) × Server F R
  frame_request = ingest_frame fromisoformat dumps loads upload refuses cfg clock disk

  -- Every request is charged to the device's quota for frames, once, whatever becomes of it, and no
  -- request for a frame touches the observations.
  ingest_frame_charges :
      (device_id : Text) (metadata jpeg : Bytes) (s : Server F R)
      → let (_, s') = frame_request device_id metadata jpeg s in
        (s'.limiter
          ≡ (check_rate_limit cfg.rate_limits device_id Rate.frames 1 clock.time s.limiter).1)
        × (s'.asset_observation ≡ s.asset_observation)
  unfolding ingest_frame
  ingest_frame_charges device_id metadata jpeg s = ground arith

  -- A frame is answered with 200 only if its metadata were an object that passes validation and its
  -- file has between 1 and the maximal number of bytes and begins with the magic bytes of JPEG.
  pub ingest_frame_checks :
      (device_id : Text) (metadata jpeg : Bytes) (s : Server F R) {response : FrameUploadResponse F}
      → (frame_request device_id metadata jpeg s).0 ≡ ok response
      → (m : FrameMetadata F J) × (loads metadata ≡ fields m)
        × (validate_frame fromisoformat m ≡ true)
        × (1 ≤ length jpeg)
        × (length jpeg ≤ cfg.max_frame_size_bytes)
        × (take 3 jpeg ≡ 0xff ∷ 0xd8 ∷ 0xff ∷ [])
  unfolding ingest_frame
  ingest_frame_checks device_id metadata jpeg s h =
      elim (Outcome-cases (read_metadata fromisoformat loads metadata)) [
        | inr (e, bad) ↦ ground arith
        | inl (m, good) ↦
            let checked = read_metadata-ok fromisoformat loads metadata m good in
            let sound = check_jpeg-ok cfg jpeg in
            (
              m,
              ground arith,
              ground arith,
              ground (arith, sound),
              ground (arith, sound),
              ground (arith, sound),
            )
      ]

  -- A request that is refused by the limiter or by a check, so with a status below 500, leaves the
  -- files, the bucket and the table as they were; with status 500 the table is still as it was.
  pub ingest_frame_refused :
      (device_id : Text) (metadata jpeg : Bytes) (s : Server F R) {e : HttpException}
      → let (answer, s') = frame_request device_id metadata jpeg s in
        answer ≡ raise e
        → (s'.frames.asset_frame ≡ s.frames.asset_frame)
          × (e.status_code ≢ 500 → s'.frames ≡ s.frames)
  unfolding ingest_frame
  ingest_frame_refused device_id metadata jpeg s {e = e} h =
      elim (Outcome-cases (read_metadata fromisoformat loads metadata)) [
        | inr (e', bad) ↦ ground arith
        | inl (m, good) ↦ ground (
          arith,
          store_frame_fails fromisoformat dumps upload refuses cfg.storage disk device_id
              clock.db_now m jpeg s.frames,
        )
      ]

  -- Metadata that are valid JSON but no object are answered with 500, not 400, for every device
  -- that the limiter admits.
  ingest_frame_not_mapping :
      (device_id : Text) (metadata jpeg : Bytes) (s : Server F R)
      → (check_rate_limit cfg.rate_limits device_id Rate.frames 1 clock.time s.limiter).0 ≡ ok tt
      → loads metadata ≡ not_mapping
      → (frame_request device_id metadata jpeg s).0 ≡ unhandled
  unfolding ingest_frame read_metadata
  ingest_frame_not_mapping device_id metadata jpeg s admitted bad = ground arith
