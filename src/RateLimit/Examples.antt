-- ===== src/RateLimit/Examples.antt =====
-- Runs of the limiter, and its theorems at concrete calls.
use pothole_detection_server.Prelude.{
  ◌+◌, ◌-◌, ◌*◌, ◌≤◌, ◌<◌, ◌≡◌, ◌≢◌, refl, List, [], ◌∷◌, arith, ◌⊎◌, Text, codes, dec_text,
}
use pothole_detection_server.Http.{ok, raise, limit_exceeded}
use pothole_detection_server.RateLimit.{
  Settings, events, second, window_seconds, bucket_seconds, get_buckets, set_buckets,
  get_current_count, prune, increment_last, prune_and_increment, check_rate_limit,
  reset_rate_limits,
}
use pothole_detection_server.RateLimit.Log.{Charge, replay, recent, prune_and_increment-log}
use pothole_detection_server.RateLimit.Limits.{
  after, charged, check_rate_limit-events, check_rate_limit_window,
}

abbrev cfg : Settings
cfg = record { rate_limit_events_per_hour = 100; rate_limit_frames_per_hour = 100 }

abbrev phone : Text
phone = codes "dev-1"

abbrev tablet : Text
tablet = codes "dev-2"

-- Newest first: 50 events in the 7th minute, 60 just before them on another device, 30 at the
-- start.
abbrev log : List Charge
log =
    charged phone 50 (400 * second)
    ∷ charged tablet 60 (399 * second)
    ∷ charged phone 30 (10 * second)
    ∷ []

refused :
    (check_rate_limit cfg phone events 21 (500 * second) (after log [])).0
    ≡ raise (record { status_code = 429; detail = limit_exceeded phone events 100 101 })
unfolding check_rate_limit replay dec_text get_buckets set_buckets get_current_count increment_last
    prune
refused = refl

reset_empties : reset_rate_limits (after log log) ≡ after [] []
unfolding reset_rate_limits replay
reset_empties = refl

prune_and_increment-log_example : (prune_and_increment (replay log) phone 7 (3700 * second)).0 ≡ 57
unfolding dec_text
prune_and_increment-log_example = prune_and_increment-log log phone 7 (3700 * second) (omega arith)

check_rate_limit-events_example :
    check_rate_limit cfg phone events 21 (500 * second) (after log []) ≡ (
      raise (record { status_code = 429; detail = limit_exceeded phone events 100 101 }),
      after (charged phone 21 (500 * second) ∷ log) [],
    )
unfolding dec_text
check_rate_limit-events_example =
    check_rate_limit-events cfg phone 21 (500 * second) log [] (omega arith)

check_rate_limit_window_example :
    let result = (check_rate_limit cfg phone events 21 (500 * second) (after log [])).0 in
    ((result ≡ ok tt)
      × (21 + recent (window_seconds - bucket_seconds) log phone (500 * second) ≤ 100))
    ⊎ ((result ≢ ok tt) × (100 < 21 + recent window_seconds log phone (500 * second)))
check_rate_limit_window_example =
    check_rate_limit_window cfg phone 21 (500 * second) log [] (omega arith)
