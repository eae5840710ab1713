-- ===== src/App/Cors.antt =====
-- app/config.py, `cors_origin_list`: the origins of a list that is separated by commas.
use pothole_detection_server.Prelude.{
  ℕ, ◌≡◌, refl, ap, false, not, List, [], ◌∷◌, ◌++◌, arith, ◌==◌, if◌then◌else◌, Text, map, All,
}
use pothole_detection_server.Fusion.{filter}
use pothole_detection_server.Headers.{is_empty, strip}

-- The first part of a split gets one more character.
abbrev pub extend : ℕ → List Text → List Text
extend c [] = (c ∷ []) ∷ []
extend c (p ∷ ps) = (c ∷ p) ∷ ps

-- `str.split` with a separator of one character
unfoldable pub split : ℕ → Text → List Text
split sep [] = [] ∷ []
split sep (c ∷ v) = let rest = split sep v in if c == sep then [] ∷ rest else extend c rest

-- `cors_origin_list`
pub cors_origin_list : Text → List Text
unfolding split
cors_origin_list v = map strip (filter (λ o. not (is_empty (strip o))) (split b',' v))

-- The origins with commas between them.
abbrev pub join : List Text → Text
join [] = []
join (o ∷ []) = o
join (o ∷ p ∷ os) = o ++ (b',' ∷ join (p ∷ os))

-- The text does not hold the character.
abbrev pub Lacks : ℕ → Text → Type 0
Lacks c = All (λ x. (x == c) ≡ false)

-- An origin with no comma, not empty and with no white space at its ends.
abbrev pub IsOrigin : Text → Type 0
IsOrigin o = Lacks b',' o × (is_empty o ≡ false) × (strip o ≡ o)

split_last : (sep : ℕ) (o : Text) → Lacks sep o → split sep o ≡ o ∷ []
unfolding split
split_last sep [] h = refl
split_last sep (c ∷ o) (hc, h) = rw (split, hc, split_last sep o h) refl

split_first :
    (sep : ℕ) (o rest : Text) → Lacks sep o → split sep (o ++ (sep ∷ rest)) ≡ o ∷ split sep rest
unfolding split
split_first sep [] rest h = ground arith
split_first sep (c ∷ o) rest (hc, h) = rw (split, hc, split_first sep o rest h) refl

split-join :
    (o : Text) (os : List Text) → All IsOrigin (o ∷ os) → split b',' (join (o ∷ os)) ≡ o ∷ os
split-join o [] (h, _) = split_last b',' o h.0
split-join o (p ∷ os) (h, hs) = rw (split_first b',' o (join (p ∷ os)) h.0, split-join p os hs) refl

kept :
    (os : List Text) → All IsOrigin os → map strip (filter (λ o. not (is_empty (strip o))) os) ≡ os
unfolding filter
kept [] h = refl
kept (o ∷ os) ((_, ne, same), h) = rw (filter, same, ne, kept os h) (ap (λ x. x ∷ os) same)

-- If there is at least one origin and each has no comma, is not empty and has no white space at its
-- ends, then joining them with commas and reading the list gives them back, in their order.
cors_origin_list-join :
    (o : Text) (os : List Text) → All IsOrigin (o ∷ os) → cors_origin_list (join (o ∷ os)) ≡ o ∷ os
unfolding cors_origin_list
cors_origin_list-join o os h = rw (split-join o os h) (kept (o ∷ os) h)
