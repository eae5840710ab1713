-- ===== src/Files/Paths.antt =====
-- When two uploads share a file.
use mathlib.Core.List.{append_cancel_right, append_assoc}
use pothole_detection_server.Prelude.{◌≡◌, ◌≢◌, refl, [], ◌∷◌, ◌++◌, arith, Text, codes, All}
use pothole_detection_server.Files.{path_stem, relative_path}

-- The text holds no slash.
abbrev pub IsSegment : Text → Type 0
IsSegment = All (λ c. c ≢ b'/')

split_at_slash :
    (a b : Text) {x y : Text}
    → IsSegment a
    → IsSegment b
    → a ++ b'/' ∷ x ≡ b ++ b'/' ∷ y
    → (a ≡ b) × (x ≡ y)
split_at_slash [] [] p q e = (refl, cc)
split_at_slash [] (c ∷ b) p q e = ground arith
split_at_slash (c ∷ a) [] p q e = ground arith
split_at_slash (c ∷ a) (c' ∷ b) {x = x} {y = y} (_, p) (_, q) e =
    let (ab, xy) = split_at_slash a b {x = x} {y = y} p q (cc) in (cc ab, xy)

-- If no device id holds a slash, two uploads have the same path only if they come from the same
-- device and have the same client id, whatever the client ids hold.
pub relative_path-injective :
    (d d' c c' : Text)
    → IsSegment d
    → IsSegment d'
    → relative_path d c ≡ relative_path d' c'
    → (d ≡ d') × (c ≡ c')
unfolding relative_path path_stem
relative_path-injective d d' c c' p q e = split_at_slash d d' p q (append_cancel_right _ _ _ e)

-- With a slash in a device id two devices can have the same path, one for each way to read the
-- slashes.
relative_path_collision :
    (d e c : Text)
    → relative_path (d ++ (codes "/" ++ e)) c ≡ relative_path d (e ++ (codes "/" ++ c))
unfolding relative_path path_stem
relative_path_collision d e c = simp append_assoc
