-- ===== src/Engine.antt =====
-- app/fusion/engine.py, matlab_port_v1.py, python_v1.py and registry.py: the fusion engines.
pub mod Sigmoid
pub mod Fuse
mod Examples
use pothole_detection_server.Prelude.{
  ◌≡◌, Bool, true, false, Option, none, some, List, [], ◌∷◌, ◌++◌, if◌then◌else◌, ◌&&◌, Text, codes,
  same, foldl, ◌>>=◌,
}
use pothole_detection_server.Float.{Float, zero_f, one_f, max_f, min_f, divide}
use pothole_detection_server.Features.{or_zero, compute_ratio, clamp01, severity}

pub record FusionInput (F : Type 0) : Type 0 where
  pub magnitude : Option F
  pub accel_std : Option F
  pub gbar_in_max : Option F
  pub speed_mps : Option F
  pub sensor_p_pothole : Option F
  pub sensor_severity : Option F
  pub visual_confidence : Option F
  pub delta_ms : F
  pub delta_m : F

pub record FusionDebug (F : Type 0) : Type 0 where
  pub model_id : Text
  pub engine_version : Text
  pub runtime_ms : F

pub record FusionOutput (F : Type 0) : Type 0 where
  pub fused_confidence : F
  pub severity : F
  pub feature_vector : Option (List F)
  pub debug : FusionDebug F

abbrev pub matlab_v1 : Text
matlab_v1 = codes "fusion.matlab_port_v1"

abbrev pub python_v1 : Text
python_v1 = codes "fusion.python_v1"

pub record MatlabPortV1Engine (F : Type 0) : Type 0 where
  pub w_s : F
  pub w_v : F
  pub model_id : Text

pub record PythonV1Engine (F : Type 0) : Type 0 where
  pub w_s : F
  pub w_v : F
  pub ratio_mean : F
  pub ratio_std : F
  pub severity_speed_ref : F
  pub severity_scale : F

-- The classes that satisfy the protocol `FusionEngine`.
pub data Engine (F : Type 0) : Type 0 where
  matlab : MatlabPortV1Engine F → Engine F
  python : PythonV1Engine F → Engine F

-- The settings of config.py that choose and fill the engine.
pub record FusionSettings (F : Type 0) : Type 0 where
  pub fusion_engine_version : Text
  pub fusion_w_s : F
  pub fusion_w_v : F
  pub fallback_ratio_mean : F
  pub fallback_ratio_std : F
  pub severity_speed_ref : F
  pub severity_scale : F

-- `sensor_model_version or "unknown"`
pub model_id_of : Text → Text
model_id_of [] = codes "unknown"
model_id_of (c ∷ v) = c ∷ v

module _ {F : Type 0} ⦃d : Float F⦄ where
  -- `none` is an exception of `math.exp` or of a division.
  pub sigmoid : F → Option F
  sigmoid x =
      if d.le zero_f x
      then (do z ← d.exp (d.neg x); divide one_f (d.add one_f z))
      else (do z ← d.exp x; divide z (d.add one_f z))

  -- `p` as `logit` clamps it.
  pub clamp_eps : F → F
  clamp_eps p = min_f (d.sub one_f d.eps) (max_f d.eps p)

  pub logit : F → Option F
  unfolding clamp_eps
  logit p = do q ← divide (clamp_eps p) (d.sub one_f (clamp_eps p)); d.log q

  -- The term of one signal: none if it is missing.
  pub signal_term : F → Option F → Option (List F)
  signal_term w none = some []
  signal_term w (some p) = do l ← logit (clamp01 p); some (d.mul w l ∷ [])

  -- `sum(terms)`
  pub sum_terms : List F → F
  sum_terms = foldl d.add zero_f

  -- `sigmoid(sum(terms)) if terms else 0.5`
  pub fuse_terms : List F → Option F
  unfolding sum_terms
  fuse_terms [] = some d.half
  fuse_terms (t ∷ ts) = sigmoid (sum_terms (t ∷ ts))

  abbrev pub matlab_output : MatlabPortV1Engine F → F → FusionInput F → F → FusionOutput F
  matlab_output e runtime_ms inp fused = record {
    fused_confidence = fused;
    severity = or_zero inp.sensor_severity;
    feature_vector = none;
    debug = record { model_id = e.model_id; engine_version = matlab_v1; runtime_ms = runtime_ms };
  }

  -- `MatlabPortV1Engine.fuse`
  pub matlab_fuse : MatlabPortV1Engine F → F → FusionInput F → Option (FusionOutput F)
  unfolding signal_term fuse_terms
  matlab_fuse e runtime_ms inp = do
    sensor ← signal_term e.w_s inp.sensor_p_pothole
    visual ← signal_term e.w_v inp.visual_confidence
    fused ← fuse_terms (sensor ++ visual)
    some (matlab_output e runtime_ms inp fused)

  -- `PythonV1Engine.__init__`
  pub make_python_engine : F → F → F → F → F → F → PythonV1Engine F
  make_python_engine w_s w_v ratio_mean ratio_std speed_ref scale = record {
    w_s = w_s;
    w_v = w_v;
    ratio_mean = ratio_mean;
    ratio_std = if d.lt zero_f ratio_std then ratio_std else one_f;
    severity_speed_ref = speed_ref;
    severity_scale = scale;
  }

  abbrev pub python_output : F → F → F → FusionOutput F
  python_output runtime_ms fused s = record {
    fused_confidence = fused;
    severity = s;
    feature_vector = none;
    debug = record {
      model_id = codes "heuristic";
      engine_version = python_v1;
      runtime_ms = runtime_ms;
    };
  }

  -- `PythonV1Engine.fuse`
  pub python_fuse : PythonV1Engine F → F → FusionInput F → Option (FusionOutput F)
  unfolding signal_term sum_terms
  python_fuse e runtime_ms inp = do
    ratio ← compute_ratio inp.magnitude inp.accel_std
    z ← divide (d.sub ratio e.ratio_mean) e.ratio_std
    p_sensor ← sigmoid z
    sensor ← signal_term e.w_s (some p_sensor)
    visual ← signal_term e.w_v inp.visual_confidence
    fused ← sigmoid (sum_terms (sensor ++ visual))
    s ← severity inp.magnitude inp.speed_mps e.severity_speed_ref e.severity_scale
    some (python_output runtime_ms fused s)

  pub fuse : Engine F → F → FusionInput F → Option (FusionOutput F)
  unfolding matlab_fuse python_fuse
  fuse (matlab e) runtime_ms inp = matlab_fuse e runtime_ms inp
  fuse (python e) runtime_ms inp = python_fuse e runtime_ms inp

  -- The engine while there is no model, or where it is configured.
  pub fallback_engine : FusionSettings F → Engine F
  unfolding make_python_engine
  fallback_engine cfg = python (
      make_python_engine cfg.fusion_w_s cfg.fusion_w_v cfg.fallback_ratio_mean
        cfg.fallback_ratio_std cfg.severity_speed_ref cfg.severity_scale)

  -- `get_engine`, on the version of the active model.
  unfoldable pub get_engine : FusionSettings F → Option Text → Engine F
  unfolding fallback_engine model_id_of
  get_engine cfg model = elim model [
    | none ↦ fallback_engine cfg
    | some version ↦
        if same cfg.fusion_engine_version matlab_v1
        then matlab
            (record { w_s = cfg.fusion_w_s; w_v = cfg.fusion_w_v; model_id = model_id_of version })
        else fallback_engine cfg
  ]
