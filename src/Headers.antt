-- ===== src/Headers.antt =====
-- app/dependencies.py: the two required headers.
pub mod Checks
mod Examples
use pothole_detection_server.Prelude.{
  ℕ, ◌+◌, Bool, true, false, not, ◌&&◌, ◌||◌, Option, none, some, List, [], ◌∷◌, leb, ◌==◌,
  if◌then◌else◌, Text, codes, same,
}
use pothole_detection_server.Http.{
  Outcome, ok, raise, HttpException, missing_device_id, missing_version, unsupported_version,
}

-- The white space of `str.strip`.
unfoldable pub is_space : ℕ → Bool
is_space c =
    (leb 9 c && leb c 13)
    || (leb 28 c && leb c 32)
    || (c == 133)
    || (c == 160)
    || (c == 5760)
    || (leb 8192 c && leb c 8202)
    || (c == 8232)
    || (c == 8233)
    || (c == 8239)
    || (c == 8287)
    || (c == 12288)

abbrev pub is_empty : Text → Bool
is_empty [] = true
is_empty (c ∷ v) = false

pub lstrip : Text → Text
lstrip [] = []
lstrip (c ∷ v) = let rest = lstrip v in if is_space c then rest else c ∷ v

pub rstrip : Text → Text
rstrip [] = []
rstrip (c ∷ v) = let rest = rstrip v in if is_space c && is_empty rest then [] else c ∷ rest

unfoldable pub strip : Text → Text
unfolding lstrip rstrip
strip v = rstrip (lstrip v)

-- `str.lower` on Latin-1, in which a header is decoded.
unfoldable pub lower_char : ℕ → ℕ
lower_char c =
    if (leb 65 c && leb c 90) || (leb 192 c && leb c 222 && not (c == 215)) then c + 32 else c

unfoldable pub lower : Text → Text
lower [] = []
lower (c ∷ v) = lower_char c ∷ lower v

unfoldable pub require_device_id : Option Text → Outcome Text
require_device_id none = raise (record { status_code = 400; detail = missing_device_id })
require_device_id (some x) =
    if is_empty x || is_empty (strip x)
    then raise (record { status_code = 400; detail = missing_device_id })
    else ok (strip x)

unfoldable pub require_version_v1 : Option Text → Outcome Text
require_version_v1 none = raise (record { status_code = 400; detail = missing_version })
require_version_v1 (some x) =
    if is_empty x
    then raise (record { status_code = 400; detail = missing_version })
    else (if not (same (lower (strip x)) (codes "v1"))
        then raise (record { status_code = 400; detail = unsupported_version x })
        else ok (strip x))
