-- ===== src/RateLimit/Log.antt =====
-- The limiter against a log of all its calls: the total that a call sees is the sum of the log over
-- the window.
use pothole_detection_server.Prelude.{
  ℕ, ◌+◌, ◌-◌, ◌≤◌, ◌≡◌, refl, List, [], ◌∷◌, arith, leb, if◌then◌else◌, Text, same,
}
use pothole_detection_server.RateLimit.{
  Store, window_seconds, bucket_seconds, in_window, bucket_start, get_buckets, get_current_count,
  charge, prune_and_increment,
}
use pothole_detection_server.RateLimit.Window.{get_current_count-charge, get_buckets-set_buckets}

-- One call of `_prune_and_increment`.
pub record Charge : Type 0 where
  pub device : Text
  pub count : ℕ
  pub time : ℕ

-- The store after the calls of a log, whose newest call stands first.
unfoldable pub replay : List Charge → Store
replay [] = []
replay (c ∷ older) = (prune_and_increment (replay older) c.device c.count c.time).1

-- The clock of the log does not run backwards, and has not passed `now`.
abbrev pub IsUntil : ℕ → List Charge → Type 0
IsUntil now [] = Unit
IsUntil now (c ∷ older) = (c.time ≤ now) × IsUntil c.time older

pub IsUntil-mono : (h : List Charge) {t u : ℕ} → IsUntil t h → t ≤ u → IsUntil u h
IsUntil-mono [] h le = tt
IsUntil-mono (c ∷ older) (l, h) le = (omega arith, h)

-- The sum of a device's charges whose bucket starts in the window.
abbrev pub logged : List Charge → Text → ℕ → ℕ
logged [] d now = 0
logged (c ∷ older) d now =
    (if same c.device d then (if in_window now (bucket_start c.time) then c.count else 0) else 0)
    + logged older d now

-- The sum of a device's charges in the last `span` ticks, to the tick.
abbrev pub recent : ℕ → List Charge → Text → ℕ → ℕ
recent span [] d now = 0
recent span (c ∷ older) d now =
    (if same c.device d then (if leb now (c.time + span) then c.count else 0) else 0)
    + recent span older d now

get_buckets-replay :
    (h : List Charge) (d : Text) {before : ℕ} (now : ℕ)
    → IsUntil before h
    → before ≤ now
    → get_current_count (get_buckets (replay h) d) now ≡ logged h d now
unfolding replay prune_and_increment get_buckets get_current_count
get_buckets-replay [] d now u b = refl
get_buckets-replay (c ∷ older) d now (le, u) b =
    let old = get_buckets (replay older) c.device in
    let new = charge old c.count c.time in
    ground (
      arith,
      get_buckets-set_buckets (replay older) c.device d new,
      get_current_count-charge old c.count c.time now,
      get_buckets-replay older d now u,
    )

-- After any calls with a clock that does not run backwards, a further call for `n` items returns
-- `n` and the sum of that device's earlier charges whose one-minute bucket starts within the last
-- hour, whatever the calls of other devices and however the buckets were pruned.
pub prune_and_increment-log :
    (h : List Charge) (d : Text) (n now : ℕ)
    → IsUntil now h
    → (prune_and_increment (replay h) d n now).0 ≡ n + logged h d now
unfolding prune_and_increment
prune_and_increment-log h d n now u = ground (
  arith,
  get_current_count-charge (get_buckets (replay h) d) n now now,
  get_buckets-replay h d now u,
)

recent_bounds :
    (h : List Charge) (d : Text) (now : ℕ)
    → (recent (window_seconds - bucket_seconds) h d now ≤ logged h d now)
      × (logged h d now ≤ recent window_seconds h d now)
recent_bounds [] d now = omega arith
recent_bounds (c ∷ older) d now = ground (arith, recent_bounds older d now)

-- The total is never less than the charges of the last 59 minutes, and never more than those of the
-- last 60 minutes: the one-minute buckets err by less than a minute, in the device's favour.
pub prune_and_increment-window :
    (h : List Charge) (d : Text) (n now : ℕ)
    → IsUntil now h
    → let total = (prune_and_increment (replay h) d n now).0 in
      (n + recent (window_seconds - bucket_seconds) h d now ≤ total)
      × (total ≤ n + recent window_seconds h d now)
prune_and_increment-window h d n now u =
    omega (arith, prune_and_increment-log h d n now u, recent_bounds h d now)
