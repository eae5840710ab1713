-- ===== src/RateLimit/Limits.antt =====
-- `check_rate_limit`: when it refuses, what it charges, and what it leaves alone.
use pothole_detection_server.Prelude.{
  ℕ, ◌+◌, ◌-◌, ◌≤◌, ◌<◌, ◌≡◌, ◌≢◌, refl, List, [], ◌∷◌, arith, Text, dec_text, if◌then◌else◌, leb,
  ◌⊎◌,
}
use pothole_detection_server.Http.{ok, raise, limit_exceeded, HttpException}
use pothole_detection_server.RateLimit.{
  Store, Settings, Limiter, events, frames, window_seconds, bucket_seconds, get_buckets,
  prune_and_increment, check_rate_limit, charge,
}
use pothole_detection_server.RateLimit.Window.{get_buckets-set_buckets}
use pothole_detection_server.RateLimit.Log.{
  Charge, replay, IsUntil, IsUntil-mono, logged, recent, prune_and_increment-log,
  prune_and_increment-window,
}

-- The limiter after two logs of calls, one for each resource.
abbrev pub after : List Charge → List Charge → Limiter
after he hf = record { event_buckets = replay he; frame_buckets = replay hf }

abbrev pub charged : Text → ℕ → ℕ → Charge
charged d n now = record { device = d; count = n; time = now }

-- If the clock has not stepped back, no charge of the history being later than the call, then a call
-- for events is refused with status 429 exactly when the charges in the window, this one included,
-- pass the configured limit. Refused or not, it is entered in the log of events, and the
-- log of frames stays as it is.
pub check_rate_limit-events :
    (cfg : Settings) (d : Text) (n now : ℕ) (he hf : List Charge)
    → IsUntil now he
    → let limit = cfg.rate_limit_events_per_hour in
      let total = n + logged he d now in
      check_rate_limit cfg d events n now (after he hf) ≡ (
        if leb total limit
            then ok tt
            else raise (record { status_code = 429; detail = limit_exceeded d events limit total }),
        after (charged d n now ∷ he) hf,
      )
unfolding check_rate_limit replay
check_rate_limit-events cfg d n now he hf u = ground (arith, prune_and_increment-log he d n now u)

-- The same for a call for frames, with the logs exchanged.
pub check_rate_limit-frames :
    (cfg : Settings) (d : Text) (n now : ℕ) (he hf : List Charge)
    → IsUntil now hf
    → let limit = cfg.rate_limit_frames_per_hour in
      let total = n + logged hf d now in
      check_rate_limit cfg d frames n now (after he hf) ≡ (
        if leb total limit
            then ok tt
            else raise (record { status_code = 429; detail = limit_exceeded d frames limit total }),
        after he (charged d n now ∷ hf),
      )
unfolding check_rate_limit replay dec_text
check_rate_limit-frames cfg d n now he hf u = ground (arith, prune_and_increment-log hf d n now u)

-- For any other resource the call succeeds and changes nothing.
pub check_rate_limit_other :
    (cfg : Settings) (d resource : Text) (n now : ℕ) (l : Limiter)
    → resource ≢ events
    → resource ≢ frames
    → check_rate_limit cfg d resource n now l ≡ (ok tt, l)
unfolding check_rate_limit
check_rate_limit_other cfg d resource n now l e f = ground arith

-- The calls of one device leave the buckets of every other device as they were.
pub prune_and_increment_others :
    (s : Store) (d other : Text) (n now : ℕ)
    → d ≢ other
    → get_buckets (prune_and_increment s d n now).1 other ≡ get_buckets s other
unfolding prune_and_increment
prune_and_increment_others s d other n now ne =
    ground (arith, get_buckets-set_buckets s d other (charge (get_buckets s d) n now))

-- Nothing that a device did counts any more once it has been quiet for an hour.
logged_expired :
    (h : List Charge) (d : Text) (last now : ℕ)
    → IsUntil last h
    → last + window_seconds < now
    → logged h d now ≡ 0
logged_expired [] d last now u quiet = refl
logged_expired (c ∷ older) d last now (le, u) quiet =
    ground (arith, logged_expired older d c.time now u)

-- A device that has been refused, however often, is admitted again after an hour with no call, as
-- long as the new call alone is within the limit.
check_rate_limit_recovers :
    (cfg : Settings) (d : Text) (n last now : ℕ) (he hf : List Charge)
    → IsUntil last he
    → last + window_seconds < now
    → n ≤ cfg.rate_limit_events_per_hour
    → (check_rate_limit cfg d events n now (after he hf)).0 ≡ ok tt
check_rate_limit_recovers cfg d n last now he hf u quiet small = ground (
  arith,
  check_rate_limit-events cfg d n now he hf (IsUntil-mono he u (omega arith)),
  logged_expired he d last now u quiet,
)

-- If the clock has not stepped back, no charge of the history being later than the call, a call is
-- either admitted, and the device's charges of the last 59 minutes and the call itself
-- are within the limit, or refused, and the charges of the last 60 minutes and the call are beyond
-- it.
pub check_rate_limit_window :
    (cfg : Settings) (d : Text) (n now : ℕ) (he hf : List Charge)
    → IsUntil now he
    → let limit = cfg.rate_limit_events_per_hour in
      let result = (check_rate_limit cfg d events n now (after he hf)).0 in
      ((result ≡ ok tt) × (n + recent (window_seconds - bucket_seconds) he d now ≤ limit))
      ⊎ ((result ≢ ok tt) × (limit < n + recent window_seconds he d now))
check_rate_limit_window cfg d n now he hf u = ground (
  arith,
  check_rate_limit-events cfg d n now he hf u,
  prune_and_increment-log he d n now u,
  prune_and_increment-window he d n now u,
)

-- The limiter raises nothing but 429.
pub check_rate_limit-status :
    (cfg : Settings) (d resource : Text) (n now : ℕ) (l : Limiter) {e : HttpException}
    → (check_rate_limit cfg d resource n now l).0 ≡ raise e
    → e.status_code ≡ 429
unfolding check_rate_limit
check_rate_limit-status cfg d resource n now l h = ground arith
