-- ===== src/Engine/Examples.antt =====
-- The engines on one pair.
use pothole_detection_server.Prelude.{◌≡◌, refl, none, some, codes}
use pothole_detection_server.Float.Fixed.{Fixed, nan, plus, fixed_float, Fixed-IsFloat}
use pothole_detection_server.Engine.{
  FusionInput, FusionOutput, FusionSettings, MatlabPortV1Engine, matlab_v1, fuse, get_engine,
}
use pothole_detection_server.Engine.Sigmoid.{InUnitOrNan}
use pothole_detection_server.Engine.Fuse.{fuse-get_engine}

abbrev pair : FusionInput Fixed
pair = record {
  magnitude = some (plus 6_000_000);
  accel_std = some (plus 1_000_000);
  gbar_in_max = none;
  speed_mps = some (plus 12_000_000);
  sensor_p_pothole = some (plus 900_000);
  sensor_severity = some (plus 700_000);
  visual_confidence = some nan;
  delta_ms = plus 0;
  delta_m = plus 0;
}

abbrev cfg : FusionSettings Fixed
cfg = record {
  fusion_engine_version = matlab_v1;
  fusion_w_s = plus 500_000;
  fusion_w_v = plus 500_000;
  fallback_ratio_mean = plus 3_000_000;
  fallback_ratio_std = plus 0;
  severity_speed_ref = plus 5_000_000;
  severity_scale = plus 2_000_000;
}

abbrev primary : MatlabPortV1Engine Fixed
primary = record { w_s = plus 500_000; w_v = plus 500_000; model_id = codes "m1" }

fuse-get_engine_example :
    (out : FusionOutput Fixed) × (fuse (get_engine cfg (some (codes "m1"))) (plus 3) pair
      ≡ some out)
    × InUnitOrNan Fixed-IsFloat out.fused_confidence
fuse-get_engine_example = fuse-get_engine Fixed-IsFloat cfg (some (codes "m1")) (plus 3) pair refl
