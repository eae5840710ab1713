-- ===== src/Frames/Examples.antt =====
-- Uploads of frames to local storage.
use pothole_detection_server.Prelude.{
  ◌≡◌, refl, none, some, List, [], ◌∷◌, Text, codes, dec_text, same, if◌then◌else◌,
}
use pothole_detection_server.Float.Fixed.{Fixed, fixed_float}
use pothole_detection_server.Schema.{lookup_frame}
use pothole_detection_server.Events.{normalize_ts}
use pothole_detection_server.Files.{healthy, read_file}
use pothole_detection_server.Files.Atomic.{stored_path}
use pothole_detection_server.Frames.{StorageSettings, FrameStore, frame_row, store_frame}
use pothole_detection_server.Frames.Store.{
  or_else, stored_row, response_to, store_frame_stores, store_frame_duplicate,
}
use pothole_detection_server.Samples.{iso, frame, dumps, upload, frame_refuses, stamp, phone, jpeg}

abbrev local_storage : StorageSettings
local_storage = record {
  storage_backend = codes "local";
  storage_local_path = codes "frames";
  supabase_storage_bucket = codes "frames";
}

-- One frame is stored.
abbrev store : FrameStore Fixed (List Text)
store = record {
  files = (codes "frames/dev-1/f1.jpg", 1 ∷ []) ∷ [];
  remote = [];
  asset_frame = frame_row dumps phone 5 (frame (codes "f1")) stamp (codes "dev-1/f1.jpg") ∷ [];
}

store_frame_stores_example :
    let m = frame (codes "f2") in
    let (response, s') =
      store_frame iso dumps upload frame_refuses local_storage healthy phone 7 m jpeg store in
    (response ≡ some (response_to iso dumps upload frame_refuses local_storage m))
    × (read_file (stored_path (codes "frames") phone (codes "f2")) s'.files ≡ some jpeg)
    × ((k : Text)
        → lookup_frame k s'.asset_frame
          ≡ or_else (lookup_frame k store.asset_frame) (
              if same (codes "f2") k
              then some (stored_row iso dumps upload frame_refuses local_storage phone 7 m stamp)
              else none))
unfolding normalize_ts dec_text frame_row
store_frame_stores_example =
    store_frame_stores iso dumps upload frame_refuses local_storage phone 7 (frame (codes "f2"))
      jpeg store stamp refl refl refl

store_frame_duplicate_example :
    let (response, s') =
      store_frame iso dumps upload frame_refuses local_storage healthy phone 7
        (frame (codes "f1"))
        jpeg
        store in
    (response
      ≡ some (response_to iso dumps upload frame_refuses local_storage (frame (codes "f1"))))
    × (s'.asset_frame ≡ store.asset_frame)
    × (read_file (stored_path (codes "frames") phone (codes "f1")) s'.files ≡ some jpeg)
unfolding normalize_ts dec_text frame_row lookup_frame
store_frame_duplicate_example =
    store_frame_duplicate iso dumps upload frame_refuses local_storage phone 7 (frame (codes "f1"))
      jpeg store stamp refl refl refl refl refl
