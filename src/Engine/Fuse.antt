-- ===== src/Engine/Fuse.antt =====
-- Both engines answer every input, and the fused confidence is a probability.
use pothole_detection_server.Prelude.{
  ◌≡◌, refl, inl, inr, Option, none, some, List, [], ◌∷◌, ◌++◌, arith, Text, same, Bool-cases,
}
use pothole_detection_server.Float.{Float, zero_f, ◌≺◌}
use pothole_detection_server.Float.Laws.{IsFloat}
use pothole_detection_server.Features.{or_zero, clamp01}
use pothole_detection_server.Features.Ranges.{
  InUnit, pos-ne_zero, compute_ratio_total, severity_bounds,
}
use pothole_detection_server.Engine.{
  FusionInput, FusionOutput, MatlabPortV1Engine, PythonV1Engine, FusionSettings, matlab_v1,
  signal_term, sum_terms, fuse_terms, matlab_fuse, make_python_engine, python_fuse, fuse,
  matlab_output, python_output, model_id_of, fallback_engine, get_engine,
}
use pothole_detection_server.Engine.Sigmoid.{logit_total, InUnitOrNan, sigmoid-InUnitOrNan}

module _ {F : Type 0} ⦃d : Float F⦄ (laws : IsFloat F) where
  open laws use {zero-lt-one, half_bounds}

  signal_term_total : (w : F) (o : Option F) → (ts : List F) × (signal_term w o ≡ some ts)
  unfolding signal_term
  signal_term_total w none = ([], refl)
  signal_term_total w (some p) =
      let (l, e) = logit_total laws (clamp01 p) in (d.mul w l ∷ [], rw (signal_term, e))

  fuse_terms_total : (ts : List F) → (y : F) × (fuse_terms ts ≡ some y) × InUnitOrNan laws y
  unfolding fuse_terms
  fuse_terms_total [] = (d.half, refl, inl half_bounds)
  fuse_terms_total (t ∷ ts) = sigmoid-InUnitOrNan laws (sum_terms (t ∷ ts))

  -- The primary engine answers every input, with no exception: the fused confidence is between 0
  -- and 1, or NaN, and the severity is the sensor model's, or 0.0 if it gave none.
  pub matlab_fuse_total :
      (e : MatlabPortV1Engine F) (runtime_ms : F) (inp : FusionInput F)
      → (out : FusionOutput F) × (matlab_fuse e runtime_ms inp ≡ some out)
        × InUnitOrNan laws out.fused_confidence
        × (out.severity ≡ or_zero inp.sensor_severity)
  unfolding matlab_fuse
  matlab_fuse_total e t inp =
      let (sensor, es) = signal_term_total e.w_s inp.sensor_p_pothole in
      let (visual, ev) = signal_term_total e.w_v inp.visual_confidence in
      let (fused, ef, bounds) = fuse_terms_total (sensor ++ visual) in
      (matlab_output e t inp fused, rw (matlab_fuse, es, ev, ef), bounds, refl)

  -- What the constructor makes of a standard deviation is positive.
  ratio_std_pos :
      (w_s w_v mean std ref scale : F)
      → zero_f ≺ (make_python_engine w_s w_v mean std ref scale).ratio_std
  unfolding make_python_engine
  ratio_std_pos w_s w_v mean std ref scale = ground (arith, zero-lt-one)

  -- The fallback engine answers every input if its divisors are positive: the fused confidence is
  -- between 0 and 1, or NaN, and the severity is between 0 and 1.
  pub python_fuse_total :
      (e : PythonV1Engine F) (runtime_ms : F) (inp : FusionInput F)
      → zero_f ≺ e.ratio_std
      → zero_f ≺ e.severity_speed_ref
      → (out : FusionOutput F) × (python_fuse e runtime_ms inp ≡ some out)
        × InUnitOrNan laws out.fused_confidence
        × InUnit laws out.severity
  unfolding python_fuse
  python_fuse_total e t inp std ref =
      let (ratio, er) = compute_ratio_total laws inp.magnitude inp.accel_std in
      let nonzero = pos-ne_zero laws e.ratio_std std in
      let z = d.quotient (d.sub ratio e.ratio_mean) e.ratio_std in
      let (p, ep, _) = sigmoid-InUnitOrNan laws z in
      let (sensor, es) = signal_term_total e.w_s (some p) in
      let (visual, ev) = signal_term_total e.w_v inp.visual_confidence in
      let (fused, ef, bounds) = sigmoid-InUnitOrNan laws (sum_terms (sensor ++ visual)) in
      let (s, e2, unit) =
        severity_bounds laws inp.magnitude inp.speed_mps e.severity_speed_ref e.severity_scale
          ref in
      (python_output t fused s, rw (python_fuse, er, nonzero, ep, es, ev, ef, e2), bounds, unit)

  fallback_total :
      (cfg : FusionSettings F) (runtime_ms : F) (inp : FusionInput F)
      → zero_f ≺ cfg.severity_speed_ref
      → (out : FusionOutput F) × (fuse (fallback_engine cfg) runtime_ms inp ≡ some out)
        × InUnitOrNan laws out.fused_confidence
  unfolding fuse fallback_engine
  fallback_total cfg t inp ref =
      let std =
        ratio_std_pos cfg.fusion_w_s cfg.fusion_w_v cfg.fallback_ratio_mean cfg.fallback_ratio_std
          cfg.severity_speed_ref cfg.severity_scale in
      let (out, e, bounds, _) =
        python_fuse_total
          (make_python_engine cfg.fusion_w_s cfg.fusion_w_v cfg.fallback_ratio_mean
            cfg.fallback_ratio_std cfg.severity_speed_ref cfg.severity_scale)
          t inp std ref in
      (out, e, bounds)

  pub fuse-get_engine :
      (cfg : FusionSettings F) (model : Option Text) (runtime_ms : F) (inp : FusionInput F)
      → zero_f ≺ cfg.severity_speed_ref
      → (out : FusionOutput F) × (fuse (get_engine cfg model) runtime_ms inp ≡ some out)
        × InUnitOrNan laws out.fused_confidence
  unfolding fuse get_engine
  fuse-get_engine cfg none t inp ref = fallback_total cfg t inp ref
  fuse-get_engine cfg (some version) t inp ref =
      elim (Bool-cases (same cfg.fusion_engine_version matlab_v1)) [
        | inl primary ↦
            let (out, e, bounds, _) =
              matlab_fuse_total
                (record {
                  w_s = cfg.fusion_w_s;
                  w_v = cfg.fusion_w_v;
                  model_id = model_id_of version;
                })
                t inp in
            (out, rw primary e, bounds)
        | inr other ↦ rw other (fallback_total cfg t inp ref)
      ]
