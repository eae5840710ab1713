-- ===== src/Engine/Sigmoid.antt =====
-- `sigmoid` and `logit` raise nothing, at any float.
use pothole_detection_server.Prelude.{◌≡◌, ◌⊎◌, inl, inr, false, some, arith, Bool-cases}
use pothole_detection_server.Float.{Float, zero_f, one_f, divide, ◌≼◌}
use pothole_detection_server.Float.Laws.{IsFloat}
use pothole_detection_server.Features.Ranges.{InUnit, pos-ne_zero}
use pothole_detection_server.Engine.{sigmoid, clamp_eps, logit}

module _ {F : Type 0} ⦃d : Float F⦄ (laws : IsFloat F) where
  open laws use {
    lt-le, le_trans, refl_of_le, not_lt-le, lt-not_le, eq-le, zero-lt-eps, eps-le, one_sub_eps-le,
    zero-le-one, one_sub_antitone, one_sub_bounds, one_sub_one_sub_eps, quotient_pos,
    quotient_bounds, one_add_bounds, zero-lt-one, lt_le_trans, neg_nonneg, exp_nonpos, log_pos,
    exp_nan, add_nan, quotient_nan,
  }

  -- Between eps and 1 - eps, also at NaN.
  clamp_eps_bounds : (p : F) → (d.eps ≼ clamp_eps p) × (clamp_eps p ≼ d.sub one_f d.eps)
  unfolding clamp_eps
  clamp_eps_bounds p = ground (
    arith,
    eps-le,
    refl_of_le d.eps (d.sub one_f d.eps) eps-le,
    lt-le d.eps p,
    refl_of_le d.eps p,
    lt-le p (d.sub one_f d.eps),
    lt-le d.eps (d.sub one_f d.eps),
  )

  -- `logit` has a value at every float, infinities and NaN included: the clamp keeps the argument
  -- of the logarithm positive and the divisor away from zero.
  pub logit_total : (p : F) → (y : F) × (logit p ≡ some y)
  unfolding logit
  logit_total p =
      let q = clamp_eps p in
      let (low, high) = clamp_eps_bounds p in
      let below_one = le_trans _ _ _ high one_sub_eps-le in
      let above_zero = le_trans _ _ _ (lt-le _ _ zero-lt-eps) low in
      let denominator =
        lt_le_trans _ _ _ one_sub_one_sub_eps
          (one_sub_antitone q (d.sub one_f d.eps) above_zero high one_sub_eps-le) in
      let ratio =
        quotient_pos q (d.sub one_f q) low below_one denominator
          (one_sub_bounds q above_zero below_one) in
      let (y, e) = log_pos (d.quotient q (d.sub one_f q)) ratio in
      (y, rw (logit, pos-ne_zero laws (d.sub one_f q) denominator) e)

  -- The value of `1 / (1 + z)` and of `z / (1 + z)`, for z between 0 and 1.
  logistic_bounds :
      (a z : F)
      → zero_f ≼ z
      → z ≼ one_f
      → zero_f ≼ a
      → a ≼ d.add one_f z
      → (divide a (d.add one_f z) ≡ some (d.quotient a (d.add one_f z)))
        × InUnit laws (d.quotient a (d.add one_f z))
  logistic_bounds a z l u la ua =
      let (one_le, _) = one_add_bounds z l u in
      let positive = lt_le_trans _ _ _ zero-lt-one one_le in
      (
        rw (pos-ne_zero laws (d.add one_f z) positive),
        quotient_bounds a (d.add one_f z) la ua positive,
      )

  negative_of : (x : F) → x ≼ x → d.le zero_f x ≡ false → x ≼ zero_f
  negative_of x number h =
      ground (arith, refl_of_le zero_f one_f zero-le-one, not_lt-le x zero_f, lt-le x zero_f)

  not_le_nan : (x : F) → d.le x x ≡ false → d.le zero_f x ≡ false
  not_le_nan x h = ground (arith, refl_of_le zero_f x)

  nan-ne_zero : (x : F) → d.le x x ≡ false → d.eq x zero_f ≡ false
  nan-ne_zero x h = ground (arith, eq-le x zero_f, refl_of_le x zero_f)

  -- Between 0 and 1, or NaN.
  abbrev pub InUnitOrNan : F → Type 0
  InUnitOrNan y = InUnit laws y ⊎ (d.le y y ≡ false)

  sigmoid_nan : (x : F) → d.le x x ≡ false → (y : F) × (sigmoid x ≡ some y) × (d.le y y ≡ false)
  unfolding sigmoid
  sigmoid_nan x h =
      let (z, e, nan) = exp_nan x h in
      let sum_nan = add_nan one_f z nan in
      (
        d.quotient z (d.add one_f z),
        rw (sigmoid, not_le_nan x h, e, nan-ne_zero (d.add one_f z) sum_nan),
        quotient_nan z (d.add one_f z) nan,
      )

  sigmoid_number : (x : F) → x ≼ x → (y : F) × (sigmoid x ≡ some y) × InUnit laws y
  unfolding sigmoid
  sigmoid_number x number = elim (Bool-cases (d.le zero_f x)) [
    | inl up ↦
        let (z, e, l, u) = exp_nonpos (d.neg x) (neg_nonneg x up) in
        let (value, bounds) = logistic_bounds one_f z l u zero-le-one (one_add_bounds z l u).0 in
        (d.quotient one_f (d.add one_f z), rw (sigmoid, up, e) value, bounds)
    | inr down ↦
        let (z, e, l, u) = exp_nonpos x (negative_of x number down) in
        let (value, bounds) = logistic_bounds z z l u l (one_add_bounds z l u).1 in
        (d.quotient z (d.add one_f z), rw (sigmoid, down, e) value, bounds)
  ]

  -- `sigmoid` has a value at every float, with no overflow and no division by zero: between 0 and 1
  -- at a number, the infinities included, and NaN at NaN.
  pub sigmoid_total :
      (x : F)
      → (y : F) × (sigmoid x ≡ some y)
        × (((x ≼ x) × InUnit laws y) ⊎ ((d.le x x ≡ false) × (d.le y y ≡ false)))
  sigmoid_total x = elim (Bool-cases (d.le x x)) [
    | inl number ↦ let (y, e, bounds) = sigmoid_number x number in (y, e, inl (number, bounds))
    | inr nan ↦ let (y, e, same) = sigmoid_nan x nan in (y, e, inr (nan, same))
  ]

  pub sigmoid-InUnitOrNan : (x : F) → (y : F) × (sigmoid x ≡ some y) × InUnitOrNan y
  sigmoid-InUnitOrNan x = elim (Bool-cases (d.le x x)) [
    | inl number ↦ let (y, e, bounds) = sigmoid_number x number in (y, e, inl bounds)
    | inr nan ↦ let (y, e, same) = sigmoid_nan x nan in (y, e, inr same)
  ]
