-- ===== src/Files/Atomic.antt =====
-- The replacement of a file is atomic: a reader of the path sees the old file or the new one.
use mathlib.Core.List.{append_cancel_left}
use pothole_detection_server.Prelude.{
  ◌≡◌, ◌≢◌, refl, sym, ◌∙◌, ◌⊎◌, inl, inr, none, some, [], ◌∷◌, ◌++◌, arith, if◌then◌else◌, Text,
  codes, same, same_refl, Bool-cases, take,
}
use pothole_detection_server.Files.{
  Bytes, Files, Disk, healthy, mkdir_fails, write_fails, replace_fails, read_file, write_file,
  remove_file, replace_file, path_stem, relative_path, join_path, temp_path, store_jpeg_local,
  ends_with_slash,
}

pub read_file-write_file :
    (k p : Text) (b : Bytes) (fs : Files)
    → read_file k (write_file p b fs) ≡ (if same p k then some b else read_file k fs)
unfolding read_file write_file
read_file-write_file k p b [] = refl
read_file-write_file k p b ((q, a) ∷ fs) = ground (arith, read_file-write_file k p b fs)

pub read_file-remove_file :
    (k p : Text) (fs : Files)
    → read_file k (remove_file p fs) ≡ (if same p k then none else read_file k fs)
unfolding read_file remove_file
read_file-remove_file k p [] = ground arith
read_file-remove_file k p ((q, a) ∷ fs) = ground (arith, read_file-remove_file k p fs)

tmp-ne-jpg : ¬ (codes ".tmp" ≡ codes ".jpg")
tmp-ne-jpg e = ground arith

jpg_tmp-ne-jpg : ¬ (codes ".jpg.tmp" ≡ codes ".jpg")
jpg_tmp-ne-jpg e = ground arith

-- The temporary file is another file.
temp_path-ne : (stem : Text) → temp_path stem ≢ stem ++ codes ".jpg"
unfolding temp_path
temp_path-ne stem e = elim (Bool-cases (ends_with_slash stem)) [
  | inl s ↦ jpg_tmp-ne-jpg (append_cancel_left stem _ _ (rw s at e))
  | inr s ↦ tmp-ne-jpg (append_cancel_left stem _ _ (rw s at e))
]

module _ (root device_id client_id : Text) where
  -- Where the frame is stored, and the temporary file.
  pub stored_path : Text
  stored_path = join_path root (path_stem device_id client_id) ++ codes ".jpg"

  pub scratch_path : Text
  scratch_path = temp_path (join_path root (path_stem device_id client_id))

-- Each path after a new temporary file has replaced the old one.
read_file-replace_file :
    (temp path k : Text) (b : Bytes) (fs : Files)
    → read_file k (replace_file temp path (write_file temp b fs))
      ≡ (if same path k then some b else if same temp k then none else read_file k fs)
unfolding replace_file
read_file-replace_file temp path k b fs =
    let written : read_file temp (write_file temp b fs) ≡ some b =
      read_file-write_file temp temp b fs ∙ rw same_refl in
    rw (replace_file, written, read_file-write_file, read_file-remove_file, read_file-write_file)
      (ground arith)

-- A write that runs through leaves exactly the new bytes at the path, no temporary file, and every
-- other file as it was.
pub store_jpeg_local_healthy :
    (root d c : Text) (bytes : Bytes) (fs : Files)
    → let (url, fs') = store_jpeg_local healthy root d c bytes fs in
      (url ≡ some (relative_path d c))
      × (read_file (stored_path root d c) fs' ≡ some bytes)
      × (read_file (scratch_path root d c) fs' ≡ none)
      × ((k : Text)
          → k ≢ stored_path root d c
          → k ≢ scratch_path root d c
          → read_file k fs' ≡ read_file k fs)
unfolding store_jpeg_local stored_path scratch_path
store_jpeg_local_healthy root d c bytes fs =
    let stem = join_path root (path_stem d c) in
    let temp = temp_path stem in
    let path = stem ++ codes ".jpg" in
    let after = λ (k : Text). read_file-replace_file temp path k bytes fs in
    let apart = temp_path-ne stem in
    (
      refl,
      ground (arith, after path),
      ground (arith, after temp, apart),
      λ k p t. ground (arith, after k, p, t),
    )

-- Writing the temporary file changes no other path.
read_file-scratch :
    (stem k : Text) (b : Bytes) (fs : Files)
    → k ≢ temp_path stem
    → read_file k (write_file (temp_path stem) b fs) ≡ read_file k fs
read_file-scratch stem k b fs ne = ground (arith, read_file-write_file k (temp_path stem) b fs)

-- Wherever the write ends, the path holds either what it held before or the new bytes whole, and
-- the caller gets the path only if the new bytes are there. No third file changes.
pub store_jpeg_local_atomic :
    (disk : Disk) (root d c : Text) (bytes : Bytes) (fs : Files)
    → let (url, fs') = store_jpeg_local disk root d c bytes fs in
      let path = stored_path root d c in
      ((read_file path fs' ≡ read_file path fs) ⊎ (read_file path fs' ≡ some bytes))
      × (url ≢ none → read_file path fs' ≡ some bytes)
      × ((k : Text) → k ≢ path → k ≢ scratch_path root d c → read_file k fs' ≡ read_file k fs)
unfolding store_jpeg_local stored_path scratch_path
store_jpeg_local_atomic healthy root d c bytes fs =
    let (url, there, gone, others) = store_jpeg_local_healthy root d c bytes fs in
    (inr there, λ _. there, others)
store_jpeg_local_atomic mkdir_fails root d c bytes fs =
    (inl refl, λ n. absurd (n refl), λ k p t. refl)
store_jpeg_local_atomic (write_fails n) root d c bytes fs =
    let stem = join_path root (path_stem d c) in
    (
      inl (read_file-scratch stem _ (take n bytes) fs (λ e. temp_path-ne stem (sym e))),
      λ e. absurd (e refl),
      λ k p t. read_file-scratch stem k (take n bytes) fs t,
    )
store_jpeg_local_atomic replace_fails root d c bytes fs =
    let stem = join_path root (path_stem d c) in
    (
      inl (read_file-scratch stem _ bytes fs (λ e. temp_path-ne stem (sym e))),
      λ e. absurd (e refl),
      λ k p t. read_file-scratch stem k bytes fs t,
    )
