-- ===== src/RateLimit/Window.antt =====
-- Lemmas on the buckets: what pruning and charging do to the count in the window.
use pothole_detection_server.Prelude.{
  ℕ, ◌+◌, ◌≤◌, ◌≡◌, refl, [], ◌∷◌, arith, if◌then◌else◌, Text, same,
}
use pothole_detection_server.RateLimit.{
  Buckets, Store, in_window, bucket_start, get_buckets, set_buckets, get_current_count, prune,
  increment_last, charge,
}

pub get_current_count-increment_last :
    (bs : Buckets) (current n now : ℕ)
    → get_current_count (increment_last bs current n) now
      ≡ get_current_count bs now + (if in_window now current then n else 0)
unfolding get_current_count increment_last
get_current_count-increment_last [] current n now = omega arith
get_current_count-increment_last ((ts, c) ∷ []) current n now = ground arith
get_current_count-increment_last (b ∷ b' ∷ bs) current n now =
    omega (arith, get_current_count-increment_last (b' ∷ bs) current n now)

-- What an earlier call pruned would not be counted later.
pub get_current_count-prune :
    (bs : Buckets) (before now : ℕ)
    → before ≤ now
    → get_current_count (prune bs before) now ≡ get_current_count bs now
unfolding get_current_count prune
get_current_count-prune [] before now h = refl
get_current_count-prune ((ts, c) ∷ bs) before now h =
    ground (arith, get_current_count-prune bs before now h)

pub get_current_count-charge :
    (bs : Buckets) (n before now : ℕ)
    → before ≤ now
    → get_current_count (charge bs n before) now
      ≡ get_current_count bs now + (if in_window now (bucket_start before) then n else 0)
unfolding charge
get_current_count-charge bs n before now h = omega (
  arith,
  get_current_count-increment_last (prune bs before) (bucket_start before) n now,
  get_current_count-prune bs before now h,
)

pub get_buckets-set_buckets :
    (s : Store) (k d : Text) (b : Buckets)
    → get_buckets (set_buckets s k b) d ≡ (if same k d then b else get_buckets s d)
unfolding get_buckets set_buckets
get_buckets-set_buckets [] k d b = refl
get_buckets-set_buckets ((j, a) ∷ s) k d b = ground (arith, get_buckets-set_buckets s k d b)
