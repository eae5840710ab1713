-- ===== src/Routes.antt =====
-- app/routes/events.py and app/routes/frames.py: the two endpoints over the state of the server.
pub mod Events
pub mod Frames
pub mod Ids
mod Examples
use pothole_detection_server.Prelude.{
  ℕ, Bool, true, false, not, Option, none, some, List, [], ◌∷◌, ltb, ◌==◌, if◌then◌else◌, Text,
  length, same, take,
}
use pothole_detection_server.Http.{
  Outcome, ok, raise, HttpException, batch_too_large, invalid_metadata, frame_empty,
  frame_too_large, invalid_magic, internal_server_error,
}
use pothole_detection_server.Headers.{require_device_id, require_version_v1}
use pothole_detection_server.RateLimit as Rate
use pothole_detection_server.RateLimit.{Limiter, check_rate_limit}
use pothole_detection_server.Float.{Float}
use pothole_detection_server.Schema.{DateTime, Observation, Frame}
use pothole_detection_server.Events.{Refusal, EventPayload, RejectedEvent, insert_events}
use pothole_detection_server.Files.{Bytes, Disk}
use pothole_detection_server.Frames.{
  FrameMetadata, FrameUploadResponse, StorageSettings, FrameStore, validate_frame, store_frame,
}

-- The settings of config.py that the endpoints read.
pub record Settings : Type 0 where
  pub rate_limits : Rate.Settings
  pub max_batch_size : ℕ
  pub max_frame_size_bytes : ℕ
  pub storage : StorageSettings

-- What the endpoints share: the limiter, the table asset_observation, and where frames are stored.
pub record Server (F R : Type 0) : Type 0 where
  pub limiter : Limiter
  pub asset_observation : List (Observation F)
  pub frames : FrameStore F R

pub record EventBatchResponse : Type 0 where
  pub accepted : List Text
  pub rejected : List RejectedEvent

-- The clocks of one request: that of the limiter, and that of the database.
pub record Clock : Type 0 where
  pub time : ℕ
  pub db_now : ℕ

-- What `json.loads` and `FrameMetadata(**metadata_dict)` make of the metadata part before the
-- `Field` constraints: no JSON, JSON that is no object (a TypeError), an object with a field
-- missing or of the wrong type, or the fields.
pub data MetadataPart (F J : Type 0) : Type 0 where
  not_json : MetadataPart F J
  not_mapping : MetadataPart F J
  bad_fields : MetadataPart F J
  fields : FrameMetadata F J → MetadataPart F J

-- `unhandled_exception_handler` of main.py.
abbrev pub unhandled : {A : Type 0} → Outcome A
unhandled = raise (record { status_code = 500; detail = internal_server_error })

-- `jpeg_bytes[:3] == _JPEG_MAGIC`
pub has_magic : Bytes → Bool
has_magic b = same (take 3 b) (0xff ∷ 0xd8 ∷ 0xff ∷ [])

module _ (fromisoformat : Text → Option DateTime) {F R : Type 0}
    (refuses : List (Observation F) → Observation F → Option Refusal) (cfg : Settings)
    (clock : Clock) where
  -- `ingest_events`, on a validated body.
  pub ingest_events :
      Text → List (EventPayload F) → Server F R → Outcome EventBatchResponse × Server F R
  ingest_events device_id events s =
      if ltb cfg.max_batch_size (length events)
      then (
        raise (record {
          status_code = 400;
          detail = batch_too_large (length events) cfg.max_batch_size;
        }),
        s,
      )
      else (let (checked, limiter) =
            check_rate_limit cfg.rate_limits device_id Rate.events (length events) clock.time
              s.limiter in
          elim checked [
            | raise e ↦ (raise e, record s { limiter = limiter })
            | ok _ ↦
                let (result, table) =
                  insert_events fromisoformat refuses device_id clock.db_now events
                    s.asset_observation in
                (
                  elim result [
                    | none ↦ unhandled
                    | some (accepted, rejected) ↦
                        ok (record { accepted = accepted; rejected = rejected })
                  ],
                  record s { limiter = limiter; asset_observation = table },
                )
          ])

  -- The endpoint: the headers, then the handler.
  pub post_events :
      Option Text
      → Option Text
      → List (EventPayload F)
      → Server F R
      → Outcome EventBatchResponse × Server F R
  unfolding ingest_events
  post_events x_device_id accept_version events s = elim (require_device_id x_device_id) [
    | raise e ↦ (raise e, s)
    | ok device_id ↦ elim (require_version_v1 accept_version) [
      | raise e ↦ (raise e, s)
      | ok _ ↦ ingest_events device_id events s
    ]
  ]

module _ (fromisoformat : Text → Option DateTime) {F J : Type 0} ⦃d : Float F⦄
    (loads : Bytes → MetadataPart F J) where
  -- The metadata, or the exception: a ValueError is answered with 400, a TypeError is not handled.
  pub read_metadata : Bytes → Outcome (FrameMetadata F J)
  read_metadata metadata = elim (loads metadata) [
    | not_json ↦ raise (record { status_code = 400; detail = invalid_metadata })
    | not_mapping ↦ unhandled
    | bad_fields ↦ raise (record { status_code = 400; detail = invalid_metadata })
    | fields m ↦
        if validate_frame fromisoformat m
        then ok m
        else raise (record { status_code = 400; detail = invalid_metadata })
  ]

pub check_jpeg : Settings → Bytes → Outcome (Unit {0})
check_jpeg cfg jpeg =
    if length jpeg == 0
    then raise (record { status_code = 400; detail = frame_empty })
    else if ltb cfg.max_frame_size_bytes (length jpeg)
    then raise (record {
      status_code = 413;
      detail = frame_too_large (length jpeg) cfg.max_frame_size_bytes;
    })
    else if not (has_magic jpeg)
    then raise (record { status_code = 400; detail = invalid_magic })
    else ok tt

module _ (fromisoformat : Text → Option DateTime) {F J R : Type 0} ⦃d : Float F⦄
    (dumps : List J → Text) (loads : Bytes → MetadataPart F J)
    (upload : Text → Bytes → R → Option R) (refuses : Frame F → Bool) (cfg : Settings)
    (clock : Clock) (disk : Disk) where
  -- `ingest_frame`
  pub ingest_frame :
      Text → Bytes → Bytes → Server F R → Outcome (FrameUploadResponse F) × Server F R
  ingest_frame device_id metadata jpeg s =
      let (checked, limiter) =
        check_rate_limit cfg.rate_limits device_id Rate.frames 1 clock.time s.limiter in
      let s' = record s { limiter = limiter } in
      elim checked [
        | raise e ↦ (raise e, s')
        | ok _ ↦ elim (read_metadata fromisoformat loads metadata) [
          | raise e ↦ (raise e, s')
          | ok m ↦ elim (check_jpeg cfg jpeg) [
            | raise e ↦ (raise e, s')
            | ok _ ↦
                let (response, stored) =
                  store_frame fromisoformat dumps upload refuses cfg.storage disk device_id
                    clock.db_now m jpeg s.frames in
                (elim response [ none ↦ unhandled | some r ↦ ok r ], record s' { frames = stored })
          ]
        ]
      ]

  pub post_frames :
      Option Text
      → Option Text
      → Bytes
      → Bytes
      → Server F R
      → Outcome (FrameUploadResponse F) × Server F R
  unfolding ingest_frame
  post_frames x_device_id accept_version metadata jpeg s = elim (require_device_id x_device_id) [
    | raise e ↦ (raise e, s)
    | ok device_id ↦ elim (require_version_v1 accept_version) [
      | raise e ↦ (raise e, s)
      | ok _ ↦ ingest_frame device_id metadata jpeg s
    ]
  ]
