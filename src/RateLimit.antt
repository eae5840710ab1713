-- ===== src/RateLimit.antt =====
-- app/middleware/rate_limit.py: the in-memory limiter of requests per device.
pub mod Window
pub mod Log
pub mod Limits
pub mod Bounds
mod Examples
use pothole_detection_server.Prelude.{
  ℕ, ◌+◌, ◌*◌, ◌/◌, ◌≤◌, Bool, List, [], ◌∷◌, ltb, leb, ◌==◌, if◌then◌else◌, Text, codes, same,
  dec_text,
}
use pothole_detection_server.Http.{Outcome, ok, raise, limit_exceeded, HttpException}

-- `time.time()` is a count of microseconds here, and so is the start of a bucket.
abbrev pub second : ℕ
second = 1_000_000

abbrev pub bucket_seconds : ℕ
bucket_seconds = 60 * second

abbrev pub window_seconds : ℕ
window_seconds = 3600 * second

-- A bucket is the pair (timestamp, count).
abbrev pub Buckets : Type 0
Buckets = List (ℕ × ℕ)

-- `defaultdict(list)`: a device that is missing has no buckets.
abbrev pub Store : Type 0
Store = List (Text × Buckets)

unfoldable pub get_buckets : Store → Text → Buckets
get_buckets [] d = []
get_buckets ((k, b) ∷ s) d = if same k d then b else get_buckets s d

unfoldable pub set_buckets : Store → Text → Buckets → Store
set_buckets [] d b = (d, b) ∷ []
set_buckets ((k, a) ∷ s) d b = if same k d then (k, b) ∷ s else (k, a) ∷ set_buckets s d b

-- `ts >= now - _WINDOW_SECONDS`, with the subtraction moved to the other side.
abbrev pub in_window : ℕ → ℕ → Bool
in_window now ts = leb now (ts + window_seconds)

-- `int(now / _BUCKET_SECONDS) * _BUCKET_SECONDS`
abbrev pub bucket_start : ℕ → ℕ
bucket_start now = now / bucket_seconds * bucket_seconds

unfoldable pub get_current_count : Buckets → ℕ → ℕ
get_current_count [] now = 0
get_current_count ((ts, c) ∷ bs) now =
    (if in_window now ts then c else 0) + get_current_count bs now

unfoldable pub prune : Buckets → ℕ → Buckets
prune [] now = []
prune ((ts, c) ∷ bs) now =
    let rest = prune bs now in if in_window now ts then (ts, c) ∷ rest else rest

-- Adds to the last bucket if it is the current one, or appends a bucket.
unfoldable pub increment_last : Buckets → ℕ → ℕ → Buckets
increment_last [] current n = (current, n) ∷ []
increment_last ((ts, c) ∷ []) current n =
    if ts == current then (current, c + n) ∷ [] else (ts, c) ∷ (current, n) ∷ []
increment_last (b ∷ b' ∷ bs) current n = b ∷ increment_last (b' ∷ bs) current n

-- `_prune_and_increment` on the buckets of the device.
pub charge : Buckets → ℕ → ℕ → Buckets
charge bs n now = increment_last (prune bs now) (bucket_start now) n

pub prune_and_increment : Store → Text → ℕ → ℕ → ℕ × Store
unfolding charge
prune_and_increment store d n now =
    let bs = charge (get_buckets store d) n now in
    (get_current_count bs now, set_buckets store d bs)

pub record Settings : Type 0 where
  pub rate_limit_events_per_hour : ℕ
  pub rate_limit_frames_per_hour : ℕ

pub record Limiter : Type 0 where
  pub event_buckets : Store
  pub frame_buckets : Store

abbrev pub events : Text
events = codes "events"

abbrev pub frames : Text
frames = codes "frames"

-- `if current_total > limit: raise HTTPException(429, ...)`
pub enforce : Text → Text → ℕ → ℕ → Outcome (Unit {0})
enforce d resource limit current =
    if ltb limit current
    then raise (record { status_code = 429; detail = limit_exceeded d resource limit current })
    else ok tt

-- The lock makes one call atomic; `now` is the clock at the call. The charge stays when it raises.
unfoldable pub check_rate_limit :
    Settings → Text → Text → ℕ → ℕ → Limiter → Outcome (Unit {0}) × Limiter
unfolding enforce prune_and_increment
check_rate_limit cfg d resource n now l =
    if same resource events
    then (let (total, store) = prune_and_increment l.event_buckets d n now in
        (
          enforce d resource cfg.rate_limit_events_per_hour total,
          record l { event_buckets = store },
        ))
    else if same resource frames
    then (let (total, store) = prune_and_increment l.frame_buckets d n now in
        (
          enforce d resource cfg.rate_limit_frames_per_hour total,
          record l { frame_buckets = store },
        ))
    else (ok tt, l)

pub reset_rate_limits : Limiter → Limiter
reset_rate_limits l = record { event_buckets = []; frame_buckets = [] }
