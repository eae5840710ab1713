-- ===== src/Frames/Ids.antt =====
-- `store_frame` loses no row, and stores no client id twice.
use pothole_detection_server.Prelude.{
  ℕ, ◌≡◌, refl, ap, false, Option, none, List, [], ◌∷◌, ◌++◌, arith, Text, inl, inr, Option-cases,
  Bool-cases, Bool, ◌⊎◌,
}
use pothole_detection_server.Schema.{DateTime, Frame, lookup_frame}
use pothole_detection_server.Events.{normalize_ts}
use pothole_detection_server.Files.{Bytes, Disk}
use pothole_detection_server.Fusion.{any_of}
use pothole_detection_server.Fusion.Ids.{Grows, Grows-refl, Grows-eq, Grows-append, frame_ids}
use pothole_detection_server.Frames.{
  FrameMetadata, StorageSettings, FrameStore, insert_frame, store_jpeg_supabase, store_jpeg,
  execute_insert_frame, store_frame, frame_row,
}

module _ {F : Type 0} where
  lookup_none :
      (k : Text) (rows : List (Frame F))
      → lookup_frame k rows ≡ none
      → any_of k (frame_ids rows) ≡ false
  unfolding lookup_frame any_of
  lookup_none k [] e = refl
  lookup_none k (r ∷ rows) e = ground (arith, lookup_none k rows)

  ids-append :
      (rows : List (Frame F)) (r : Frame F)
      → frame_ids (rows ++ (r ∷ [])) ≡ frame_ids rows ++ (r.client_id ∷ [])
  ids-append [] r = refl
  ids-append (q ∷ rows) r = ap (λ ks. q.client_id ∷ ks) (ids-append rows r)

  insert_frame-Grows :
      (rows : List (Frame F)) (r : Frame F)
      → Grows (frame_ids rows) (frame_ids (insert_frame rows r))
  unfolding insert_frame
  insert_frame-Grows rows r = elim (Option-cases (lookup_frame r.client_id rows)) [
    | inl new ↦
        rw (new, insert_frame, ids-append rows r)
          (Grows-append (frame_ids rows) r.client_id (lookup_none r.client_id rows new))
    | inr (old, known) ↦ rw (known, insert_frame) (Grows-refl (frame_ids rows))
  ]

module _ (fromisoformat : Text → Option DateTime) {F J R : Type 0} (dumps : List J → Text)
    (upload : Text → Bytes → R → Option R) (refuses : Frame F → Bool) (cfg : StorageSettings)
    (disk : Disk) where
  -- Where the file goes, the table stays.
  store_jpeg_table :
      (device_id client_id : Text) (bytes : Bytes) (s : FrameStore F R)
      → (store_jpeg upload cfg disk device_id client_id bytes s).1.asset_frame ≡ s.asset_frame
  unfolding store_jpeg store_jpeg_supabase
  store_jpeg_table device_id client_id bytes s = ground arith

  -- The table stays, or one row is inserted.
  store_frame_table :
      (device_id : Text) (now : ℕ) (m : FrameMetadata F J) (bytes : Bytes) (s : FrameStore F R)
      → let s' =
          (store_frame fromisoformat dumps upload refuses cfg disk device_id now m bytes s).1 in
        (s'.asset_frame ≡ s.asset_frame)
        ⊎ ((r : Frame F) × (s'.asset_frame ≡ insert_frame s.asset_frame r))
  unfolding store_frame execute_insert_frame
  store_frame_table device_id now m bytes s =
      let kept = store_jpeg_table device_id m.client_id bytes s in
      let (url, s') = store_jpeg upload cfg disk device_id m.client_id bytes s in
      elim (Option-cases url) [
        | inl failed ↦ inl (ground arith)
        | inr (jpeg_url, made) ↦ elim (Option-cases (fromisoformat (normalize_ts m.ts))) [
          | inl bad ↦ inl (ground arith)
          | inr (dt, good) ↦
              let r = frame_row dumps device_id now m dt jpeg_url in
              elim (Bool-cases (refuses r)) [
                | inl refused ↦ inl (ground arith)
                | inr taken ↦ inr (r, ground arith)
              ]
        ]
      ]

  -- No row gets lost, and no client id comes twice, wherever the upload fails.
  pub store_frame-Grows :
      (device_id : Text) (now : ℕ) (m : FrameMetadata F J) (bytes : Bytes) (s : FrameStore F R)
      → Grows (frame_ids s.asset_frame) (
          frame_ids
            (store_frame fromisoformat dumps upload refuses cfg disk device_id now m bytes
              s).1.asset_frame)
  store_frame-Grows device_id now m bytes s = elim (store_frame_table device_id now m bytes s) [
    | inl kept ↦ Grows-eq (ap frame_ids kept)
    | inr (r, inserted) ↦ rw inserted (insert_frame-Grows s.asset_frame r)
  ]
