-- ===== src/Sensor/Score.antt =====
-- The score of an observation: it exists, and its class has the largest posterior.
use pothole_detection_server.Prelude.{
  ℕ, suc, ◌+◌, ◌<◌, ◌≡◌, refl, subst, true, false, Option, none, some, List, [], ◌∷◌, arith,
  if◌then◌else◌, Text, same, inl, inr, Bool-cases, Option-cases, All, length, same_refl,
}
use pothole_detection_server.Float.{Float, zero_f, ◌≼◌, ◌≺◌}
use pothole_detection_server.Float.Laws.{IsFloat}
use pothole_detection_server.Features.{or_zero}
use pothole_detection_server.Features.Ranges.{pos-ne_zero, features_total}
use pothole_detection_server.Sensor.{
  ClassMap, Posteriors, Standardization, class_of, positive_std, transform, standardized,
  get_posterior, add_posterior, add_posteriors, best_class,
}

module _ {F : Type 0} where
  -- No entry of a dictionary has the key, and no key stands twice.
  abbrev pub NoKey : Text → Posteriors F → Type 0
  NoKey c = All (λ e. same e.0 c ≡ false)

  abbrev pub IsDict : Posteriors F → Type 0
  IsDict [] = Unit
  IsDict ((c, p) ∷ ps) = NoKey c ps × IsDict ps

-- Every component below `n` has a class.
abbrev pub Covers : ℕ → ClassMap → Type 0
Covers n m = (i : ℕ) → i < n → (c : Text) × (class_of i m ≡ some c)

same_sym : (a b : Text) → same a b ≡ false → same b a ≡ false
same_sym a b h = ground arith

same_trans : (a b c : Text) → same a c ≡ false → same b c ≡ true → same a b ≡ false
same_trans a b c h k = ground arith

module _ {F : Type 0} ⦃d : Float F⦄ where
  add_posterior-NoKey :
      (c cls : Text) (x : F) (ps : Posteriors F)
      → NoKey c ps
      → same cls c ≡ false
      → NoKey c (add_posterior cls x ps)
  unfolding add_posterior
  add_posterior-NoKey c cls x [] n h = (h, tt)
  add_posterior-NoKey c cls x ((k, p) ∷ ps) (nk, n) h =
      ground (arith, add_posterior-NoKey c cls x ps n h)

  pub add_posterior-IsDict :
      (cls : Text) (x : F) (ps : Posteriors F) → IsDict ps → IsDict (add_posterior cls x ps)
  unfolding add_posterior
  add_posterior-IsDict cls x [] i = (tt, tt)
  add_posterior-IsDict cls x ((k, p) ∷ ps) (n, i) = elim (Bool-cases (same k cls)) [
    | inl here ↦ rw here (n, i)
    | inr there ↦
        rw there
          (add_posterior-NoKey k cls x ps n (same_sym k cls there), add_posterior-IsDict cls x ps i)
  ]

  best_class_key :
      (c : Text) (best : Text × F) (ps : Posteriors F)
      → same best.0 c ≡ false
      → NoKey c ps
      → same (best_class best ps).0 c ≡ false
  unfolding best_class
  best_class_key c best [] h n = h
  best_class_key c best (e ∷ ps) h (ne, n) =
      elim (d.lt best.1 e.1) as (λ b. same (best_class (if b then e else best) ps).0 c ≡ false) [
        | true ↦ best_class_key c e ps ne n
        | false ↦ best_class_key c best ps h n
      ]

  -- In a dictionary, the posterior of the best class is the one that `max` found.
  pub get_posterior-best_class :
      (best : Text × F) (ps : Posteriors F)
      → IsDict (best ∷ ps)
      → get_posterior (best_class best ps).0 (best ∷ ps) ≡ (best_class best ps).1
  unfolding best_class get_posterior
  get_posterior-best_class (c, p) [] i = rw (same_refl c)
  get_posterior-best_class (c, p) (e ∷ ps) ((ne, n), (m, i)) =
      elim (d.lt p e.1)
        as (λ b.
          let best = best_class (if b then e else (c, p)) ps in
          get_posterior best.0 ((c, p) ∷ e ∷ ps) ≡ best.1) [
            | true ↦
                rw (same_sym _ _ (best_class_key c e ps ne n), get_posterior)
                  (get_posterior-best_class e ps (m, i))
            | false ↦ ground (
              arith,
              same_sym _ _ (best_class_key e.0 (c, p) ps (same_sym _ _ ne) m),
              get_posterior-best_class (c, p) ps (n, i),
            )
          ]

  pub add_posteriors-IsDict :
      (m : ClassMap) (total : F) (i : ℕ) (xs : List F) (ps : Posteriors F) {qs : Posteriors F}
      → IsDict ps
      → add_posteriors m total i xs ps ≡ some qs
      → IsDict qs
  unfolding add_posteriors
  add_posteriors-IsDict m total i [] ps {qs = qs} dict e = subst IsDict (ground arith) dict
  add_posteriors-IsDict m total i (x ∷ xs) ps {qs = qs} dict e =
      elim (Option-cases (class_of i m)) [
        | inl missing ↦ absurd (ground arith)
        | inr (c, found) ↦ elim (Bool-cases (d.eq total zero_f)) [
          | inl zero_total ↦ absurd (ground arith)
          | inr fine ↦
              add_posteriors-IsDict m total (suc i) xs (add_posterior c (d.quotient x total) ps)
                {qs = qs} (add_posterior-IsDict c (d.quotient x total) ps dict) (ground arith)
        ]
      ]

module _ {F : Type 0} ⦃d : Float F⦄ (laws : IsFloat F) where
  open laws use {lt-le, le_trans, not_lt-le, zero-lt-one, eq-le}

  -- No entry is NaN.
  abbrev pub AreNumbers : Posteriors F → Type 0
  AreNumbers = All (λ e. e.1 ≼ e.1)

  pub best_class_max :
      (best : Text × F) (ps : Posteriors F)
      → AreNumbers (best ∷ ps)
      → All (λ e. e.1 ≼ (best_class best ps).1) (best ∷ ps)
  unfolding best_class
  best_class_max best [] n = n
  best_class_max (c, p) (e ∷ ps) (np, (ne, n)) =
      elim (d.lt p e.1)
          as (λ b.
            d.lt p e.1 ≡ b
            → let best = best_class (if b then e else (c, p)) ps in
              All (λ x. x.1 ≼ best.1) ((c, p) ∷ e ∷ ps)) [
                | true ↦ λ more.
                    let (he, h) = best_class_max e ps (ne, n) in
                    (le_trans _ _ _ (lt-le _ _ more) he, (he, h))
                | false ↦ λ less.
                    let (hp, h) = best_class_max (c, p) ps (np, n) in
                    (hp, (le_trans _ _ _ (not_lt-le _ _ np ne less) hp, h))
              ]
        refl

  positive_std_pos : (s : F) → zero_f ≺ positive_std s
  unfolding positive_std
  positive_std_pos s = ground (arith, zero-lt-one)

  -- Every observation has standardized features.
  pub standardized_total :
      (std : Standardization F) (magnitude accel_std gbar_in_max : Option F)
      → (z : List F) × (standardized std magnitude accel_std gbar_in_max ≡ some z)
  unfolding standardized transform
  standardized_total std m s g =
      let (ratio, e, _) = features_total laws m s g none in
      let r = d.quotient (d.sub ratio std.ratio_mean) (positive_std std.ratio_std) in
      let c = d.quotient (d.sub (or_zero g) std.gbar_mean) (positive_std std.gbar_std) in
      (
        r ∷ c ∷ [],
        rw (
          standardized,
          e,
          transform,
          pos-ne_zero laws (positive_std std.ratio_std) (positive_std_pos std.ratio_std),
          pos-ne_zero laws (positive_std std.gbar_std) (positive_std_pos std.gbar_std),
        ),
      )

  pub add_posteriors_total :
      (m : ClassMap) (total : F) (i : ℕ) (xs : List F) (ps : Posteriors F)
      → Covers (i + length xs) m
      → d.eq total zero_f ≡ false
      → (qs : Posteriors F) × (add_posteriors m total i xs ps ≡ some qs)
  unfolding add_posteriors
  add_posteriors_total m total i [] ps covers h = (ps, refl)
  add_posteriors_total m total i (x ∷ xs) ps covers h =
      let (c, found) = covers i (omega arith) in
      let (qs, e) =
        add_posteriors_total m total (suc i) xs (add_posterior c (d.quotient x total) ps)
          (λ j l. covers j (omega arith)) h in
      (qs, rw (found, add_posteriors, h, e))
