-- ===== src/Files.antt =====
-- app/services/frame_service.py, `_store_jpeg_local`: files by their path, and the replacement of a
-- file through a temporary one.
pub mod Paths
pub mod Atomic
mod Examples
use pothole_detection_server.Prelude.{
  ℕ, Bool, true, false, Option, none, some, List, [], ◌∷◌, ◌++◌, ◌==◌, if◌then◌else◌, Text, codes,
  same, take,
}

abbrev pub Bytes : Type 0
Bytes = List ℕ

abbrev pub Files : Type 0
Files = List (Text × Bytes)

unfoldable pub read_file : Text → Files → Option Bytes
read_file p [] = none
read_file p ((q, b) ∷ fs) = if same q p then some b else read_file p fs

unfoldable pub write_file : Text → Bytes → Files → Files
write_file p b [] = (p, b) ∷ []
write_file p b ((q, a) ∷ fs) = if same q p then (q, b) ∷ fs else (q, a) ∷ write_file p b fs

unfoldable pub remove_file : Text → Files → Files
remove_file p [] = []
remove_file p ((q, a) ∷ fs) =
    let rest = remove_file p fs in if same q p then rest else (q, a) ∷ rest

-- `os.replace(temp, path)`, for a temporary file that is there.
pub replace_file : Text → Text → Files → Files
replace_file temp path fs = elim (read_file temp fs) [
  | none ↦ fs
  | some b ↦ write_file path b (remove_file temp fs)
]

-- `f"{device_id}/{client_id}.jpg"` without its suffix
pub path_stem : Text → Text → Text
path_stem device_id client_id = device_id ++ (codes "/" ++ client_id)

pub relative_path : Text → Text → Text
unfolding path_stem
relative_path device_id client_id = path_stem device_id client_id ++ codes ".jpg"

-- `storage_root / p`: an absolute `p` replaces the root. Paths stand as they are spelled, before
-- `pathlib` drops doubled slashes.
pub join_path : Text → Text → Text
join_path root [] = root
join_path root (c ∷ p) = if c == b'/' then c ∷ p else root ++ (codes "/" ++ c ∷ p)

abbrev pub ends_with_slash : Text → Bool
ends_with_slash [] = true
ends_with_slash (c ∷ []) = c == b'/'
ends_with_slash (c ∷ c' ∷ p) = ends_with_slash (c' ∷ p)

-- `with_suffix(".tmp")` of the file `stem ++ ".jpg"`: a name that is just ".jpg" has no suffix.
pub temp_path : Text → Text
temp_path stem = if ends_with_slash stem then stem ++ codes ".jpg.tmp" else stem ++ codes ".tmp"

-- Where the writing of a file ends: it runs through, or an OSError (or the end of the process)
-- strikes at `mkdir`, after some bytes of the temporary file, or at the replacement.
pub data Disk : Type 0 where
  healthy : Disk
  mkdir_fails : Disk
  write_fails : ℕ → Disk
  replace_fails : Disk

-- The result is `relative_path`, or `none` for an exception, with the files as they are then.
unfoldable pub store_jpeg_local : Disk → Text → Text → Text → Bytes → Files → Option Text × Files
unfolding path_stem relative_path join_path temp_path replace_file
store_jpeg_local disk root device_id client_id bytes fs =
    let stem = join_path root (path_stem device_id client_id) in
    let temp = temp_path stem in
    elim disk [
      | healthy ↦ (
        some (relative_path device_id client_id),
        replace_file temp (stem ++ codes ".jpg") (write_file temp bytes fs),
      )
      | mkdir_fails ↦ (none, fs)
      | write_fails n ↦ (none, write_file temp (take n bytes) fs)
      | replace_fails ↦ (none, write_file temp bytes fs)
    ]
