-- ===== src/Headers/Checks.antt =====
-- What the handlers can rely on about the two headers.
use pothole_detection_server.Prelude.{
  ℕ, ◌≡◌, ◌≢◌, refl, ap, ◌⊎◌, true, Option, none, some, [], ◌∷◌, arith, Text, codes, All, length,
  ◌≤◌,
}
use pothole_detection_server.Http.{ok}
use pothole_detection_server.Headers.{
  is_space, lstrip, rstrip, strip, lower_char, lower, require_device_id, require_version_v1,
}

-- All of it is white space.
abbrev pub IsBlank : Text → Type 0
IsBlank = All (λ c. is_space c ≡ true)

rstrip_idem : (v : Text) → rstrip (rstrip v) ≡ rstrip v
unfolding rstrip
rstrip_idem [] = refl
rstrip_idem (c ∷ v) = ground (arith, rstrip_idem v)

lstrip_idem : (v : Text) → lstrip (lstrip v) ≡ lstrip v
unfolding lstrip
lstrip_idem [] = refl
lstrip_idem (c ∷ v) = ground (arith, lstrip_idem v)

length-lstrip-le : (v : Text) → length (lstrip v) ≤ length v
unfolding lstrip
length-lstrip-le [] = omega arith
length-lstrip-le (c ∷ v) = ground (arith, length-lstrip-le v)

-- Stripping on the right leaves a text with nothing to strip on the left so.
lstrip-rstrip : (v : Text) → lstrip v ≡ v → lstrip (rstrip v) ≡ rstrip v
unfolding lstrip rstrip
lstrip-rstrip [] e = refl
lstrip-rstrip (c ∷ v) e = ground (arith, ap length e, length-lstrip-le v)

pub strip_idem : (v : Text) → strip (strip v) ≡ strip v
unfolding strip
strip_idem v = rw (lstrip-rstrip (lstrip v) (lstrip_idem v)) (rstrip_idem (lstrip v))

lower_v : (c : ℕ) → lower_char c ≡ b'v' → (c ≡ b'v') ⊎ (c ≡ b'V')
unfolding lower_char
lower_v c e = ground arith

lower_one : (c : ℕ) → lower_char c ≡ b'1' → c ≡ b'1'
unfolding lower_char
lower_one c e = ground arith

lower-v1 : (v : Text) → lower v ≡ codes "v1" → (v ≡ codes "v1") ⊎ (v ≡ codes "V1")
unfolding lower
lower-v1 [] e = absurd (ground arith)
lower-v1 (c ∷ []) e = absurd (ground arith)
lower-v1 (c ∷ d ∷ []) e = ground (arith, lower_v c, lower_one d)
lower-v1 (c ∷ d ∷ x ∷ v) e = absurd (ground arith)

-- The device id that a handler gets is not empty, and stripping it again changes nothing.
pub require_device_id-ok :
    (x : Option Text) {d : Text} → require_device_id x ≡ ok d → (d ≢ []) × (strip d ≡ d)
unfolding require_device_id
require_device_id-ok none e = absurd (ground arith)
require_device_id-ok (some x) e = ground (arith, strip_idem x)

-- The version that a handler gets is "v1" or "V1".
pub require_version_v1-ok :
    (x : Option Text) {v : Text} → require_version_v1 x ≡ ok v → (v ≡ codes "v1") ⊎ (v ≡ codes "V1")
unfolding require_version_v1
require_version_v1-ok none e = absurd (ground arith)
require_version_v1-ok (some x) e = ground (arith, lower-v1 (strip x))
