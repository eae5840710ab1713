-- ===== src/Files/Examples.antt =====
-- Files of two devices.
use pothole_detection_server.Prelude.{◌≡◌, ◌≢◌, ◌⊎◌, none, some, [], ◌∷◌, Text, codes}
use pothole_detection_server.Files.{Files, write_fails, read_file, store_jpeg_local}
use pothole_detection_server.Files.Atomic.{stored_path, scratch_path, store_jpeg_local_atomic}

abbrev root : Text
root = codes "frames"

abbrev old : Files
old = (codes "frames/dev-1/f1.jpg", 1 ∷ 2 ∷ []) ∷ []

store_jpeg_local_atomic_example :
    let (url, fs') =
      store_jpeg_local (write_fails 1) root (codes "dev-1") (codes "f1") (7 ∷ 8 ∷ []) old in
    let path = stored_path root (codes "dev-1") (codes "f1") in
    ((read_file path fs' ≡ read_file path old) ⊎ (read_file path fs' ≡ some (7 ∷ 8 ∷ [])))
    × (url ≢ none → read_file path fs' ≡ some (7 ∷ 8 ∷ []))
    × ((k : Text)
        → k ≢ path
        → k ≢ scratch_path root (codes "dev-1") (codes "f1")
        → read_file k fs' ≡ read_file k old)
store_jpeg_local_atomic_example =
    store_jpeg_local_atomic (write_fails 1) root (codes "dev-1") (codes "f1") (7 ∷ 8 ∷ []) old
