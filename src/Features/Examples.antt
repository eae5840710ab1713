-- ===== src/Features/Examples.antt =====
-- Readings, in millionths.
use pothole_detection_server.Prelude.{◌≡◌, refl, some}
use pothole_detection_server.Float.Fixed.{plus, fixed_float}
use pothole_detection_server.Features.{compute_ratio, severity}

-- 2.0 * 3.0 / max(12.0, 5.0)
moderate :
    severity (some (plus 3_000_000)) (some (plus 12_000_000)) (plus 5_000_000) (plus 2_000_000)
    ≡ some (plus 500_000)
unfolding severity
moderate = refl

no_noise_floor : compute_ratio (some (plus 3_000_000)) (some (plus 0)) ≡ some (plus 0)
unfolding compute_ratio
no_noise_floor = refl
