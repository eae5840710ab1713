-- ===== src/Frames/Store.antt =====
-- `store_frame`: what an upload leaves in the files and in the table.
use pothole_detection_server.Prelude.{
  ℕ, ◌≡◌, refl, Bool, false, Option, none, some, List, [], ◌∷◌, ◌++◌, arith, Text, codes, same,
  if◌then◌else◌,
}
use pothole_detection_server.Schema.{DateTime, Frame, lookup_frame}
use pothole_detection_server.Events.{normalize_ts}
use pothole_detection_server.Files.{
  Bytes, Disk, healthy, read_file, store_jpeg_local, relative_path,
}
use pothole_detection_server.Files.Atomic.{stored_path, store_jpeg_local_healthy}
use pothole_detection_server.Frames.{
  FrameMetadata, FrameUploadResponse, StorageSettings, FrameStore, insert_frame,
  store_jpeg_supabase, store_jpeg, frame_row, execute_insert_frame, store_frame,
}

module _ {F : Type 0} where
  abbrev pub or_else : Option (Frame F) → Option (Frame F) → Option (Frame F)
  or_else (some r) o = some r
  or_else none o = o

  lookup_frame-append :
      (k : Text) (xs ys : List (Frame F))
      → lookup_frame k (xs ++ ys) ≡ or_else (lookup_frame k xs) (lookup_frame k ys)
  unfolding lookup_frame
  lookup_frame-append k [] ys = refl
  lookup_frame-append k (x ∷ xs) ys = ground (arith, lookup_frame-append k xs ys)

  pub lookup_frame-insert_frame :
      (k : Text) (rows : List (Frame F)) (r : Frame F)
      → lookup_frame k (insert_frame rows r)
        ≡ or_else (lookup_frame k rows) (if same r.client_id k then some r else none)
  unfolding insert_frame lookup_frame
  lookup_frame-insert_frame k rows r = ground (arith, lookup_frame-append k rows (r ∷ []))

  insert_frame_known :
      (rows : List (Frame F)) (r : Frame F) {old : Frame F}
      → lookup_frame r.client_id rows ≡ some old
      → insert_frame rows r ≡ rows
  unfolding insert_frame
  insert_frame_known rows r known = rw (insert_frame, known)

module _ (fromisoformat : Text → Option DateTime) {F J R : Type 0} (dumps : List J → Text)
    (upload : Text → Bytes → R → Option R) (refuses : Frame F → Bool) (cfg : StorageSettings) where
  -- If `store_frame` raises, the table is as it was, whatever the storage backend and wherever the
  -- call failed.
  pub store_frame_fails :
      (disk : Disk) (device_id : Text) (now : ℕ) (m : FrameMetadata F J) (bytes : Bytes)
      (s : FrameStore F R)
      → (store_frame fromisoformat dumps upload refuses cfg disk device_id now m bytes s).0 ≡ none
      → (store_frame fromisoformat dumps upload refuses cfg disk device_id now m bytes
          s).1.asset_frame
        ≡ s.asset_frame
  unfolding store_frame store_jpeg_supabase
  store_frame_fails disk device_id now m bytes s failed = ground arith

  -- The row of an upload to local storage, and its response.
  abbrev pub stored_row : Text → ℕ → FrameMetadata F J → DateTime → Frame F
  stored_row device_id now m dt =
      frame_row dumps device_id now m dt (relative_path device_id m.client_id)

  abbrev pub response_to : FrameMetadata F J → FrameUploadResponse F
  response_to m = record { client_id = m.client_id; server_p = none; label = none; model_id = none }

  store_jpeg_local_case :
      (device_id client_id : Text) (bytes : Bytes) (s : FrameStore F R)
      → same cfg.storage_backend (codes "supabase") ≡ false
      → store_jpeg upload cfg healthy device_id client_id bytes s ≡ (
        some (relative_path device_id client_id),
        record s {
          files =
              (store_jpeg_local healthy cfg.storage_local_path device_id client_id bytes s.files).1;
        },
      )
  unfolding store_jpeg
  store_jpeg_local_case device_id client_id bytes s local =
      ground (
        arith,
        (store_jpeg_local_healthy cfg.storage_local_path device_id client_id bytes s.files).0,
      )

  store_frame_run :
      (device_id : Text) (now : ℕ) (m : FrameMetadata F J) (bytes : Bytes) (s : FrameStore F R)
      (dt : DateTime)
      → same cfg.storage_backend (codes "supabase") ≡ false
      → fromisoformat (normalize_ts m.ts) ≡ some dt
      → refuses (stored_row device_id now m dt) ≡ false
      → store_frame fromisoformat dumps upload refuses cfg healthy device_id now m bytes s ≡ (
        some (response_to m),
        record s {
          files =
              (store_jpeg_local healthy cfg.storage_local_path device_id m.client_id bytes
                s.files).1;
          asset_frame = insert_frame s.asset_frame (stored_row device_id now m dt);
        },
      )
  unfolding store_frame
  store_frame_run device_id now m bytes s dt local parsed taken =
      let stored = store_jpeg_local_case device_id m.client_id bytes s local in
      rw (store_frame, stored, parsed, execute_insert_frame, taken, stored)

  -- With local storage, on a healthy disk, an upload whose timestamp can be read and whose row
  -- PostgreSQL takes is answered with its client id. The frame's file then holds the uploaded
  -- bytes, the table holds under each client id the row that it held before or else, under the
  -- uploaded one, the new row, and the row's URL is the path of the file below the storage root.
  pub store_frame_stores :
      (device_id : Text) (now : ℕ) (m : FrameMetadata F J) (bytes : Bytes) (s : FrameStore F R)
      (dt : DateTime)
      → same cfg.storage_backend (codes "supabase") ≡ false
      → fromisoformat (normalize_ts m.ts) ≡ some dt
      → refuses (stored_row device_id now m dt) ≡ false
      → let (response, s') =
          store_frame fromisoformat dumps upload refuses cfg healthy device_id now m bytes s in
        (response ≡ some (response_to m))
        × (read_file (stored_path cfg.storage_local_path device_id m.client_id) s'.files
            ≡ some bytes)
        × ((k : Text)
            → lookup_frame k s'.asset_frame
              ≡ or_else
                  (lookup_frame k s.asset_frame)
                  (if same m.client_id k then some (stored_row device_id now m dt) else none))
  unfolding frame_row
  store_frame_stores device_id now m bytes s dt local parsed taken =
      let (_, there, _, _) =
        store_jpeg_local_healthy cfg.storage_local_path device_id m.client_id bytes s.files in
      rw (store_frame_run device_id now m bytes s dt local parsed taken) (
        refl,
        there,
        λ k. lookup_frame-insert_frame k s.asset_frame (stored_row device_id now m dt),
      )

  -- With local storage, on a healthy disk, an upload whose timestamp can be read, whose row
  -- PostgreSQL would take and whose client id has a row of the same device already leaves the table
  -- as it is, and the response is that of a new frame; but the bytes at the path of the old row's
  -- device and id are replaced by the uploaded ones.
  pub store_frame_duplicate :
      (device_id : Text) (now : ℕ) (m : FrameMetadata F J) (bytes : Bytes) (s : FrameStore F R)
      (dt : DateTime) {old : Frame F}
      → same cfg.storage_backend (codes "supabase") ≡ false
      → fromisoformat (normalize_ts m.ts) ≡ some dt
      → refuses (stored_row device_id now m dt) ≡ false
      → lookup_frame m.client_id s.asset_frame ≡ some old
      → old.device_id ≡ device_id
      → let (response, s') =
          store_frame fromisoformat dumps upload refuses cfg healthy device_id now m bytes s in
        (response ≡ some (response_to m))
        × (s'.asset_frame ≡ s.asset_frame)
        × (read_file (stored_path cfg.storage_local_path old.device_id m.client_id) s'.files
            ≡ some bytes)
  unfolding frame_row
  store_frame_duplicate device_id now m bytes s dt local parsed taken known own =
      let (_, there, _, _) =
        store_jpeg_local_healthy cfg.storage_local_path device_id m.client_id bytes s.files in
      rw (store_frame_run device_id now m bytes s dt local parsed taken)
        (refl, insert_frame_known s.asset_frame (stored_row device_id now m dt) known, rw own there)
