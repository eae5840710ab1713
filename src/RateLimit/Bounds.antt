-- ===== src/RateLimit/Bounds.antt =====
-- The memory of the limiter: one device keeps at most 61 buckets.
use pothole_detection_server.Prelude.{
  ℕ, ◌+◌, ◌-◌, ◌*◌, ◌%◌, ◌≤◌, ◌≡◌, List, [], ◌∷◌, arith, Text, length, All,
}
use pothole_detection_server.RateLimit.{
  Buckets, bucket_seconds, window_seconds, bucket_start, get_buckets, prune, increment_last, charge,
  prune_and_increment,
}
use pothole_detection_server.RateLimit.Window.{get_buckets-set_buckets}
use pothole_detection_server.RateLimit.Log.{Charge, replay, IsUntil}

-- Starts are whole minutes from `low` on, at least a minute apart, and oldest first.
abbrev IsSpaced : ℕ → Buckets → Type 0
IsSpaced low [] = Unit
IsSpaced low ((ts, c) ∷ bs) =
    (low ≤ ts) × (ts % bucket_seconds ≡ 0) × IsSpaced (ts + bucket_seconds) bs

abbrev IsPast : ℕ → Buckets → Type 0
IsPast now = All (λ b. b.0 ≤ now)

IsSpaced-mono : (bs : Buckets) {a b : ℕ} → a ≤ b → IsSpaced b bs → IsSpaced a bs
IsSpaced-mono [] le s = tt
IsSpaced-mono ((ts, c) ∷ bs) le (l, m, s) = (omega arith, m, s)

prune-IsSpaced : (bs : Buckets) (low now : ℕ) → IsSpaced low bs → IsSpaced low (prune bs now)
unfolding prune
prune-IsSpaced [] low now s = tt
prune-IsSpaced ((ts, c) ∷ bs) low now (l, m, s) = ground (
  arith,
  prune-IsSpaced bs (ts + bucket_seconds) now s,
  IsSpaced-mono (prune bs now) {a = low} {b = ts + bucket_seconds} (omega arith),
)

-- What is left after pruning starts within the window.
prune-within :
    (bs : Buckets) (low now : ℕ) → IsSpaced low bs → IsSpaced (now - window_seconds) (prune bs now)
unfolding prune
prune-within [] low now s = tt
prune-within ((ts, c) ∷ bs) low now (l, m, s) = ground (
  arith,
  prune-IsSpaced bs (ts + bucket_seconds) now s,
  prune-within bs (ts + bucket_seconds) now s,
)

prune-IsPast :
    (bs : Buckets) (before now : ℕ) → before ≤ now → IsPast before bs → IsPast now (prune bs now)
unfolding prune
prune-IsPast [] before now le p = tt
prune-IsPast ((ts, c) ∷ bs) before now le (q, p) = ground (arith, prune-IsPast bs before now le p)

increment_last-IsSpaced :
    (bs : Buckets) (low n now : ℕ)
    → low ≤ bucket_start now
    → IsSpaced low bs
    → IsPast now bs
    → IsSpaced low (increment_last bs (bucket_start now) n)
unfolding increment_last
increment_last-IsSpaced [] low n now le s p = omega arith
increment_last-IsSpaced ((ts, c) ∷ []) low n now le s p = ground arith
increment_last-IsSpaced ((ts, c) ∷ b' ∷ bs) low n now le (l, m, s) (q, p) =
    (l, m, increment_last-IsSpaced (b' ∷ bs) (ts + bucket_seconds) n now (omega arith) s p)

increment_last-IsPast :
    (bs : Buckets) (n now : ℕ) → IsPast now bs → IsPast now (increment_last bs (bucket_start now) n)
unfolding increment_last
increment_last-IsPast [] n now p = omega arith
increment_last-IsPast ((ts, c) ∷ []) n now p = ground arith
increment_last-IsPast (b ∷ b' ∷ bs) n now (q, p) = (q, increment_last-IsPast (b' ∷ bs) n now p)

length-IsSpaced :
    (bs : Buckets) (low now : ℕ)
    → IsSpaced low bs
    → IsPast now bs
    → low ≤ now + bucket_seconds
    → length bs * bucket_seconds + low ≤ now + bucket_seconds
length-IsSpaced [] low now s p le = omega arith
length-IsSpaced ((ts, c) ∷ bs) low now (l, m, s) (q, p) le =
    omega (arith, length-IsSpaced bs (ts + bucket_seconds) now s p)

IsPast-mono : (bs : Buckets) {before now : ℕ} → before ≤ now → IsPast before bs → IsPast now bs
IsPast-mono [] le p = tt
IsPast-mono (b ∷ bs) le (q, p) = (omega arith, IsPast-mono bs le p)

-- What the buckets of a device satisfy between calls.
abbrev IsTidy : ℕ → Buckets → Type 0
IsTidy now bs = IsSpaced 0 bs × IsPast now bs × (length bs ≤ 61)

charge-IsTidy :
    (bs : Buckets) (n before now : ℕ)
    → before ≤ now
    → IsTidy before bs
    → IsTidy now (charge bs n now)
unfolding charge
charge-IsTidy bs n before now le (s, p, l) =
    let left = prune bs now in
    let past : IsPast now left = prune-IsPast bs before now le p in
    let new = increment_last left (bucket_start now) n in
    let new_past : IsPast now new = increment_last-IsPast left n now past in
    let low = now - window_seconds in
    let new_spaced : IsSpaced low new =
      increment_last-IsSpaced left low n now (omega arith) (prune-within bs 0 now s) past in
    (
      increment_last-IsSpaced left 0 n now (omega arith) (prune-IsSpaced bs 0 now s) past,
      new_past,
      omega (arith, length-IsSpaced new low now new_spaced new_past),
    )

replay-IsTidy :
    (h : List Charge) (d : Text) {before : ℕ} (now : ℕ)
    → IsUntil before h
    → before ≤ now
    → IsTidy now (get_buckets (replay h) d)
unfolding replay prune_and_increment get_buckets
replay-IsTidy [] d now u le = omega arith
replay-IsTidy (c ∷ older) d now (l, u) le =
    let old = get_buckets (replay older) c.device in
    let new = charge old c.count c.time in
    let fresh : IsTidy c.time new =
      charge-IsTidy old c.count c.time c.time (omega arith)
        (replay-IsTidy older c.device c.time u (omega arith)) in
    let kept : IsTidy now (get_buckets (replay older) d) =
      replay-IsTidy older d now u (omega arith) in
    ground (
      arith,
      get_buckets-set_buckets (replay older) c.device d new,
      IsPast-mono new {before = c.time} {now = now} (omega arith) fresh.1,
    )

-- However many calls a device makes, at any rate, the limiter keeps at most 61 buckets for it, as
-- long as the clock does not run backwards.
length-replay :
    (h : List Charge) (d : Text) (now : ℕ) → IsUntil now h → length (get_buckets (replay h) d) ≤ 61
length-replay h d now u = (replay-IsTidy h d now u (omega arith)).2
