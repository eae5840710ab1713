-- ===== src/Headers/Examples.antt =====
-- Headers as clients send them.
use pothole_detection_server.Prelude.{◌≡◌, refl, some, codes, dec_text}
use pothole_detection_server.Http.{raise, unsupported_version}
use pothole_detection_server.Headers.{is_space, strip, lower_char, lower, require_version_v1}

wrong_version :
    require_version_v1 (some (codes "v2"))
    ≡ raise (record { status_code = 400; detail = unsupported_version (codes "v2") })
unfolding require_version_v1 strip lower lower_char is_space dec_text
wrong_version = refl
