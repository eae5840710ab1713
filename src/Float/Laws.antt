-- ===== src/Float/Laws.antt =====
-- What the proofs rely on about the floats: facts of IEEE-754 comparison and of its rounding, which
-- is monotone, and where `math.exp` and `math.log` raise nothing. `x ≼ x` says that `x` is no NaN.
use pothole_detection_server.Prelude.{ℕ, suc, ◌≡◌, true, false, some}
use pothole_detection_server.Float.{Float, ◌≼◌, ◌≺◌}

pub record IsFloat (F : Type 0) ⦃d : Float F⦄ : Type 0 where
  -- comparison
  pub lt-le : (x y : F) → x ≺ y → x ≼ y
  pub le_trans : (x y z : F) → x ≼ y → y ≼ z → x ≼ z
  pub refl_of_le : (x y : F) → x ≼ y → (x ≼ x) × (y ≼ y)
  pub not_lt-le : (x y : F) → x ≼ x → y ≼ y → d.lt x y ≡ false → y ≼ x
  pub lt-not_le : (x y : F) → x ≺ y → d.le y x ≡ false
  pub eq-le : (x y : F) → d.eq x y ≡ true → (x ≼ y) × (y ≼ x)
  -- the constants
  pub zero-lt-eps : d.of_nat 0 ≺ d.eps
  pub eps-le : d.eps ≼ d.sub (d.of_nat 1) d.eps
  pub one_sub_eps-le : d.sub (d.of_nat 1) d.eps ≼ d.of_nat 1
  pub zero-le-one : d.of_nat 0 ≼ d.of_nat 1
  -- differences from 1 of numbers between 0 and 1
  pub one_sub_antitone :
      (p q : F)
      → d.of_nat 0 ≼ p
      → p ≼ q
      → q ≼ d.of_nat 1
      → d.sub (d.of_nat 1) q ≼ d.sub (d.of_nat 1) p
  pub one_sub_bounds : (p : F) → d.of_nat 0 ≼ p → p ≼ d.of_nat 1 → d.sub (d.of_nat 1) p ≼ d.of_nat 1
  pub one_sub_one_sub_eps : d.of_nat 0 ≺ d.sub (d.of_nat 1) (d.sub (d.of_nat 1) d.eps)
  -- quotients
  pub quotient_pos :
      (p q : F)
      → d.eps ≼ p
      → p ≼ d.of_nat 1
      → d.of_nat 0 ≺ q
      → q ≼ d.of_nat 1
      → d.of_nat 0 ≺ d.quotient p q
  pub quotient_bounds :
      (a b : F)
      → d.of_nat 0 ≼ a
      → a ≼ b
      → d.of_nat 0 ≺ b
      → (d.of_nat 0 ≼ d.quotient a b) × (d.quotient a b ≼ d.of_nat 1)
  -- 1 + z for z between 0 and 1
  pub one_add_bounds :
      (z : F)
      → d.of_nat 0 ≼ z
      → z ≼ d.of_nat 1
      → (d.of_nat 1 ≼ d.add (d.of_nat 1) z) × (z ≼ d.add (d.of_nat 1) z)
  pub zero-lt-one : d.of_nat 0 ≺ d.of_nat 1
  pub of_nat_pos : (n : ℕ) → d.of_nat 0 ≺ d.of_nat (suc n)
  pub lt_le_trans : (x y z : F) → x ≺ y → y ≼ z → x ≺ z
  pub neg_nonneg : (x : F) → d.of_nat 0 ≼ x → d.neg x ≼ d.of_nat 0
  -- `math`
  pub exp_nonpos :
      (x : F) → x ≼ d.of_nat 0 → (z : F) × (d.exp x ≡ some z) × (d.of_nat 0 ≼ z) × (z ≼ d.of_nat 1)
  pub log_pos : (x : F) → d.of_nat 0 ≺ x → (y : F) × (d.log x ≡ some y)
  pub half_bounds : (d.of_nat 0 ≼ d.half) × (d.half ≼ d.of_nat 1)
  -- NaN: `math.exp` returns it, and sums and quotients keep it
  pub exp_nan : (x : F) → d.le x x ≡ false → (z : F) × (d.exp x ≡ some z) × (d.le z z ≡ false)
  pub add_nan : (x z : F) → d.le z z ≡ false → d.le (d.add x z) (d.add x z) ≡ false
  pub quotient_nan : (z y : F) → d.le z z ≡ false → d.le (d.quotient z y) (d.quotient z y) ≡ false
