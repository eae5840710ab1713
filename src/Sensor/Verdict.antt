-- ===== src/Sensor/Verdict.antt =====
-- `score_observation`: it has a result, and what the result is.
use pothole_detection_server.Prelude.{
  ◌≡◌, ◌≢◌, refl, sym, subst, Bool, true, false, not, ◌||◌, Option, none, some, List, [], ◌∷◌,
  arith, ◌⊎◌, inl, inr, Bool-cases, Option-cases, All, length, foldl,
}
use pothole_detection_server.Float.{Float, zero_f, ◌≼◌, ◌≺◌}
use pothole_detection_server.Float.Laws.{IsFloat}
use pothole_detection_server.Features.{severity, or_zero, outlier_features}
use pothole_detection_server.Features.Ranges.{InUnit, severity_bounds, features_total}
use pothole_detection_server.Sensor.{
  Component, ClassMap, Posteriors, SensorModel, ScoreResult, class_not, class_pothole, standardized,
  get_posterior, densities, class_posteriors, outlier_gate, score_of, score_observation,
}
use pothole_detection_server.Sensor.Score.{
  IsDict, Covers, AreNumbers, add_posteriors-IsDict, get_posterior-best_class, best_class_max,
  standardized_total, add_posteriors_total,
}

module _ {F : Type 0} ⦃d : Float F⦄ (pdf : List F → List F → List (List F) → Option F) where
  -- The density of every component has a value everywhere.
  abbrev pub HasDensities : List (Component F) → Type 0
  HasDensities = All (λ c. (z : List F) → (p : F) × (pdf z c.mu c.sigma ≡ some p))

  densities_total :
      (z : List F) (cs : List (Component F))
      → HasDensities cs
      → (xs : List F) × (densities pdf z cs ≡ some xs) × (length xs ≡ length cs)
  unfolding densities
  densities_total z [] h = ([], refl, refl)
  densities_total z (c ∷ cs) (hc, h) =
      let (p, e) = hc z in
      let (xs, es, l) = densities_total z cs h in
      (d.mul c.weight p ∷ xs, rw (densities, e, es), omega (arith, l))

  -- The posteriors are a dictionary.
  pub class_posteriors-IsDict :
      (m : ClassMap) (cs : List (Component F)) (z : List F) {ps : Posteriors F}
      → class_posteriors pdf m cs z ≡ some ps
      → IsDict ps
  unfolding class_posteriors
  class_posteriors-IsDict m cs z {ps = ps} e = elim (Option-cases (densities pdf z cs)) [
    | inl failed ↦ absurd (ground arith)
    | inr (xs, found) ↦
        let total = foldl d.add zero_f xs in
        elim (Bool-cases (d.le total zero_f || not (d.is_finite total))) [
          | inl degenerate ↦ subst IsDict {x = []} {y = ps} (ground arith) tt
          | inr usable ↦ add_posteriors-IsDict m total 0 xs [] {qs = ps} tt (ground arith)
        ]
  ]

  module _ (laws : IsFloat F) where
    class_posteriors_total :
        (m : ClassMap) (cs : List (Component F)) (z : List F)
        → HasDensities cs
        → Covers (length cs) m
        → (ps : Posteriors F) × (class_posteriors pdf m cs z ≡ some ps)
    unfolding class_posteriors
    class_posteriors_total m cs z h covers =
        let (xs, found, l) = densities_total z cs h in
        let total = foldl d.add zero_f xs in
        elim (Bool-cases (d.le total zero_f || not (d.is_finite total))) [
          | inl degenerate ↦ ([], rw (class_posteriors, found, degenerate))
          | inr usable ↦
              let (qs, e) =
                add_posteriors_total laws m total 0 xs [] (λ j lt. covers j (omega (arith, l)))
                  (ground (arith, laws.eq-le total zero_f)) in
              (qs, rw (class_posteriors, found, usable, e))
        ]

module _ {F : Type 0} ⦃d : Float F⦄ (takes : F → Bool) where
  -- sklearn refuses an input with a number that is infinite, NaN or beyond float32; `takes` is its
  -- check of a number. On inputs that pass it the forest answers.
  abbrev pub Answers : {I : Type 0} → (I → List F → Option Bool) → Type 0
  Answers {I} predict =
      (forest : I) (xo : List F)
      → All (λ x. takes x ≡ true) xo
      → (b : Bool) × (predict forest xo ≡ some b)

  -- The check passes for the features of an observation.
  abbrev pub Fits : Option F → Option F → Option F → Option F → Type 0
  Fits magnitude accel_std gbar_in_max speed_mps =
      elim (outlier_features magnitude accel_std gbar_in_max speed_mps) [
        | none ↦ Unit
        | some xo ↦ All (λ x. takes x ≡ true) xo
      ]

module _ {F I : Type 0} ⦃d : Float F⦄ (laws : IsFloat F) (takes : F → Bool)
    (predict : I → List F → Option Bool) where
  gate_total :
      (o : Option I) (magnitude accel_std gbar_in_max speed_mps : Option F)
      → Answers takes predict
      → Fits takes magnitude accel_std gbar_in_max speed_mps
      → (b : Bool) × (outlier_gate predict o magnitude accel_std gbar_in_max speed_mps ≡ some b)
  unfolding outlier_gate
  gate_total none m s g v answers fits = (false, refl)
  gate_total (some forest) m s g v answers fits =
      let (ratio, _, e) = features_total laws m s g v in
      let xo = ratio ∷ or_zero g ∷ or_zero m ∷ or_zero s ∷ or_zero v ∷ [] in
      let (b, eb) = answers forest xo (rw (e, Fits) at fits) in (b, rw (outlier_gate, e) eb)

module _ {F : Type 0} ⦃d : Float F⦄ where
  score_of-severity : (sev : F) (b : Bool) (ps : Posteriors F) → (score_of sev b ps).severity ≡ sev
  unfolding score_of
  score_of-severity sev b [] = refl
  score_of-severity sev b (e ∷ ps) = refl

module _ {F : Type 0} ⦃d : Float F⦄ (laws : IsFloat F) where
  score_of_best :
      (sev : F) (b : Bool) (ps : Posteriors F)
      → IsDict ps
      → AreNumbers laws ps
      → All (λ e. e.1 ≼ get_posterior (score_of sev b ps).sensor_class ps) ps
  unfolding score_of
  score_of_best sev b [] i n = tt
  score_of_best sev b (e ∷ ps) i n =
      subst (λ x. All (λ y. y.1 ≼ x) (e ∷ ps)) (sym (get_posterior-best_class e ps i))
        (best_class_max laws e ps n)

module _ {F G I : Type 0} ⦃d : Float F⦄ (laws : IsFloat F)
    (pdf : List F → List F → List (List F) → Option F) (predict : I → List F → Option Bool) where
  -- If the components have densities and classes, the forest answers where its check of the input
  -- passes, and the reference speed is positive, then every observation whose features pass that
  -- check, whatever readings it lacks, has a score. Its severity is
  -- between 0 and 1. Without posteriors it is an outlier of the class `not` with probability 0;
  -- with posteriors its probability is the posterior of `pothole` and the forest says whether it is
  -- an outlier.
  pub score_observation_total :
      (takes : F → Bool) (model : SensorModel F G I)
      (magnitude accel_std gbar_in_max speed_mps : Option F)
      → HasDensities pdf model.components
      → Covers (length model.components) model.class_map
      → Answers takes predict
      → Fits takes magnitude accel_std gbar_in_max speed_mps
      → zero_f ≺ model.severity_calib.speed_ref
      → (z : List F) × (ps : Posteriors F) × (r : ScoreResult F) × (standardized
            model.standardization magnitude accel_std gbar_in_max
          ≡ some z)
        × (class_posteriors pdf model.class_map model.components z ≡ some ps)
        × (score_observation pdf predict model magnitude accel_std gbar_in_max speed_mps ≡ some r)
        × InUnit laws r.severity
        × (((ps ≡ [])
              × (r.sensor_class ≡ class_not)
              × (r.p_pothole ≡ zero_f)
              × (r.is_outlier ≡ true))
            ⊎ ((ps ≢ [])
                × (r.p_pothole ≡ get_posterior class_pothole ps)
                × (outlier_gate predict model.iforest magnitude accel_std gbar_in_max speed_mps
                    ≡ some r.is_outlier)))
  unfolding score_observation score_of
  score_observation_total takes model m s g v h covers answers fits ref =
      let (z, ez) = standardized_total laws model.standardization m s g in
      let (ps, ep) = class_posteriors_total pdf laws model.class_map model.components z h covers in
      let calib = model.severity_calib in
      let (sev, es, unit) = severity_bounds laws m v calib.speed_ref calib.scale ref in
      let (b, eb) = gate_total laws takes predict model.iforest m s g v answers fits in
      (
        z,
        ps,
        score_of sev b ps,
        ez,
        ep,
        rw (score_observation, ez, ep, es, eb),
        subst (InUnit laws) (sym (score_of-severity sev b ps)) unit,
        verdict sev b ps eb,
      )
    where
      verdict :
          (sev : F) (b : Bool) (ps : Posteriors F)
          → outlier_gate predict model.iforest m s g v ≡ some b
          → let r = score_of sev b ps in
            ((ps ≡ [])
              × (r.sensor_class ≡ class_not)
              × (r.p_pothole ≡ zero_f)
              × (r.is_outlier ≡ true))
            ⊎ ((ps ≢ [])
                × (r.p_pothole ≡ get_posterior class_pothole ps)
                × (outlier_gate predict model.iforest m s g v ≡ some r.is_outlier))
      verdict sev b [] e = inl (refl, refl, refl, refl)
      verdict sev b (p ∷ ps) e = inr (ground arith, refl, e)

  pub score_observation_best :
      (model : SensorModel F G I) (magnitude accel_std gbar_in_max speed_mps : Option F)
      (z : List F) (ps : Posteriors F) (r : ScoreResult F)
      → standardized model.standardization magnitude accel_std gbar_in_max ≡ some z
      → class_posteriors pdf model.class_map model.components z ≡ some ps
      → AreNumbers laws ps
      → score_observation pdf predict model magnitude accel_std gbar_in_max speed_mps ≡ some r
      → All (λ e. e.1 ≼ get_posterior r.sensor_class ps) ps
  unfolding score_observation
  score_observation_best model m s g v z ps r ez ep n e =
      elim (Option-cases (severity m v model.severity_calib.speed_ref model.severity_calib.scale)) [
        | inl failed ↦ absurd (ground arith)
        | inr (sev, es) ↦ elim (Option-cases (outlier_gate predict model.iforest m s g v)) [
          | inl failed ↦ absurd (ground arith)
          | inr (b, eb) ↦
              subst (λ x. All (λ e. e.1 ≼ get_posterior x.sensor_class ps) ps)
                {x = score_of sev b ps} {y = r} (ground arith)
                (score_of_best laws sev b ps
                  (class_posteriors-IsDict pdf model.class_map model.components z {ps = ps} ep) n)
        ]
      ]
