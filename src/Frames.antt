-- ===== src/Frames.antt =====
-- app/models/frames.py and app/services/frame_service.py: the metadata of a frame, and
-- `store_frame`.
pub mod Store
pub mod Ids
mod Examples
use pothole_detection_server.Prelude.{
  ℕ, Bool, true, false, ◌&&◌, Option, none, some, List, [], ◌∷◌, ◌++◌, leb, ◌==◌, if◌then◌else◌,
  Text, codes, length, same,
}
use pothole_detection_server.Float.{Float, zero_f, between}
use pothole_detection_server.Schema.{DateTime, Frame, lookup_frame}
use pothole_detection_server.Events.{normalize_ts, validate_timestamp, if_given}
use pothole_detection_server.Files.{Bytes, Files, Disk, store_jpeg_local, relative_path}

-- `J` is the type of a detection, a JSON object.
pub record FrameMetadata (F J : Type 0) : Type 0 where
  pub client_id : Text
  pub event_client_id : Option Text
  pub ts : Text
  pub lat : F
  pub lon : F
  pub device_p_on_device : F
  pub model_id : Option Text
  pub detections : Option (List J)

pub record FrameUploadResponse (F : Type 0) : Type 0 where
  pub client_id : Text
  pub server_p : Option F
  pub label : Option Text
  pub model_id : Option Text

-- The `Field` constraints and the validator of `FrameMetadata`; `validate_timestamp` is that of the
-- events without the comparison with the clock, which has no effect there.
unfoldable pub validate_frame :
    (Text → Option DateTime) → {F J : Type 0} ⦃d : Float F⦄ → FrameMetadata F J → Bool
validate_frame fromisoformat ⦃d⦄ m =
    (leb 1 (length m.client_id) && leb (length m.client_id) 64)
    && (if_given (λ c. leb (length c) 64) m.event_client_id
        && (validate_timestamp fromisoformat m.ts
            && (between (d.neg (d.of_nat 90)) (d.of_nat 90) m.lat
                && (between (d.neg (d.of_nat 180)) (d.of_nat 180) m.lon
                    && (between zero_f (d.of_nat 1) m.device_p_on_device
                        && if_given (λ c. leb (length c) 128) m.model_id)))))

pub record StorageSettings : Type 0 where
  pub storage_backend : Text
  pub storage_local_path : Text
  pub supabase_storage_bucket : Text

-- What a frame is stored in: local files, the bucket of Supabase, and the table asset_frame.
pub record FrameStore (F R : Type 0) : Type 0 where
  pub files : Files
  pub remote : R
  pub asset_frame : List (Frame F)

module _ {F : Type 0} where
  -- ON CONFLICT (client_id) DO NOTHING
  pub insert_frame : List (Frame F) → Frame F → List (Frame F)
  insert_frame rows r = elim (lookup_frame r.client_id rows) [
    | none ↦ rows ++ (r ∷ [])
    | some _ ↦ rows
  ]

-- `dumps` is `json.dumps`.
module _ {J : Type 0} (dumps : List J → Text) where
  -- An absent or empty list of detections is stored as NULL.
  pub detections_json : Option (List J) → Option Text
  detections_json none = none
  detections_json (some []) = none
  detections_json (some (j ∷ js)) = some (dumps (j ∷ js))

  -- The arguments of `_INSERT_FRAME_SQL`.
  unfoldable pub frame_row : {F : Type 0} → Text → ℕ → FrameMetadata F J → DateTime → Text → Frame F
  unfolding detections_json
  frame_row device_id now m ts_dt url = record {
    client_id = m.client_id;
    device_id = device_id;
    event_client_id = m.event_client_id;
    ts_utc = ts_dt.instant;
    geom = (m.lon, m.lat);
    device_probability = some m.device_p_on_device;
    device_model_id = m.model_id;
    device_detections = detections_json m.detections;
    jpeg_url = url;
    server_probability = none;
    server_model_id = none;
    received_at = now;
    processed_at = none;
  }

-- `refuses` is true of a row that PostgreSQL refuses.
module _ {F R : Type 0} (refuses : Frame F → Bool) where
  -- `_INSERT_FRAME_SQL` in a transaction of its own; `false` is an exception.
  pub execute_insert_frame : Frame F → FrameStore F R → Bool × FrameStore F R
  unfolding insert_frame
  execute_insert_frame r s =
      if refuses r
      then (false, s)
      else (true, record s { asset_frame = insert_frame s.asset_frame r })

-- `upload` is Supabase's, with upsert; `none` is an exception. `disk` is what the file
-- system does in this call.
module _ {F R : Type 0} (upload : Text → Bytes → R → Option R) (cfg : StorageSettings)
    (disk : Disk) where
  pub store_jpeg_supabase : Text → Bytes → FrameStore F R → Option Text × FrameStore F R
  store_jpeg_supabase path bytes s = elim (upload path bytes s.remote) [
    | none ↦ (none, s)
    | some r ↦ (some (cfg.supabase_storage_bucket ++ (codes "/" ++ path)), record s { remote = r })
  ]

  -- `_store_jpeg`: the storage path, or `none` for an exception.
  pub store_jpeg : Text → Text → Bytes → FrameStore F R → Option Text × FrameStore F R
  unfolding store_jpeg_supabase
  store_jpeg device_id client_id bytes s =
      if same cfg.storage_backend (codes "supabase")
      then store_jpeg_supabase (relative_path device_id client_id) bytes s
      else (let (url, fs) =
            store_jpeg_local disk cfg.storage_local_path device_id client_id bytes s.files in
          (url, record s { files = fs }))

module _ (fromisoformat : Text → Option DateTime) {F J R : Type 0} (dumps : List J → Text)
    (upload : Text → Bytes → R → Option R) (refuses : Frame F → Bool) (cfg : StorageSettings)
    (disk : Disk) where
  -- The file first, then the timestamp, then the row; `none` is an exception.
  unfoldable pub store_frame :
      Text
      → ℕ
      → FrameMetadata F J
      → Bytes
      → FrameStore F R
      → Option (FrameUploadResponse F) × FrameStore F R
  unfolding store_jpeg execute_insert_frame frame_row
  store_frame device_id now m bytes s =
      let (url, s') = store_jpeg upload cfg disk device_id m.client_id bytes s in
      elim url [
        | none ↦ (none, s')
        | some jpeg_url ↦ elim (fromisoformat (normalize_ts m.ts)) [
          | none ↦ (none, s')
          | some ts_dt ↦
              let (done, s'') =
                execute_insert_frame refuses (frame_row dumps device_id now m ts_dt jpeg_url) s' in
              (
                if done
                    then some (record {
                      client_id = m.client_id;
                      server_p = none;
                      label = none;
                      model_id = none;
                    })
                    else none,
                s'',
              )
        ]
      ]
