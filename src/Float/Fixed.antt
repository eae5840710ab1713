-- ===== src/Float/Fixed.antt =====
-- A number type that meets the laws: a whole number of millionths, or NaN, with coarse stand-ins
-- for the exponential and the logarithm. The examples run on it.
use mathlib.Core.Bool.{false≢true}
use pothole_detection_server.Prelude.{
  ◌<◌, ℕ, zero, suc, ◌+◌, ◌-◌, ◌*◌, ◌/◌, ◌≤◌, ◌≡◌, refl, Bool, true, false, Option, none, some,
  arith, ltb, leb, ◌==◌, if◌then◌else◌,
}
use pothole_detection_server.Float.{Float, zero_f, one_f, ◌≼◌, ◌≺◌}
use pothole_detection_server.Float.Laws.{IsFloat}

-- `minus n` is -(n + 1) millionths.
pub data Fixed : Type 0 where
  nan : Fixed
  plus : ℕ → Fixed
  minus : ℕ → Fixed

abbrev pub unit : ℕ
unit = 1_000_000

abbrev difference : ℕ → ℕ → Fixed
difference a b = if leb b a then plus (a - b) else minus (b - a - 1)

abbrev opposite : Fixed → Fixed
opposite nan = nan
opposite (plus zero) = plus zero
opposite (plus (suc n)) = minus n
opposite (minus n) = plus (suc n)

abbrev fixed_le : Fixed → Fixed → Bool
fixed_le (plus a) (plus b) = leb a b
fixed_le (minus a) (minus b) = leb b a
fixed_le (minus a) (plus b) = true
fixed_le _ _ = false

abbrev fixed_lt : Fixed → Fixed → Bool
fixed_lt (plus a) (plus b) = ltb a b
fixed_lt (minus a) (minus b) = ltb b a
fixed_lt (minus a) (plus b) = true
fixed_lt _ _ = false

abbrev fixed_eq : Fixed → Fixed → Bool
fixed_eq (plus a) (plus b) = a == b
fixed_eq (minus a) (minus b) = a == b
fixed_eq _ _ = false

abbrev fixed_add : Fixed → Fixed → Fixed
fixed_add (plus a) (plus b) = plus (a + b)
fixed_add (plus a) (minus b) = difference a (suc b)
fixed_add (minus a) (plus b) = difference b (suc a)
fixed_add (minus a) (minus b) = minus (a + b + 1)
fixed_add _ _ = nan

-- Applies an operation to the sizes, and the rule of signs.
abbrev with_signs : (ℕ → ℕ → ℕ) → Fixed → Fixed → Fixed
with_signs f (plus a) (plus b) = plus (f a b)
with_signs f (plus a) (minus b) = opposite (plus (f a (suc b)))
with_signs f (minus a) (plus b) = opposite (plus (f (suc a) b))
with_signs f (minus a) (minus b) = plus (f (suc a) (suc b))
with_signs f _ _ = nan

abbrev fixed_exp : Fixed → Option Fixed
fixed_exp nan = some nan
fixed_exp (plus n) = if leb n (709 * unit) then some (plus (unit + n)) else none
fixed_exp (minus n) = some (plus (unit - n / 2 - 1))

abbrev fixed_log : Fixed → Option Fixed
fixed_log nan = some nan
fixed_log (plus zero) = none
fixed_log (plus (suc n)) = some (difference (suc n) unit)
fixed_log (minus n) = none

instance abbrev pub fixed_float : Float Fixed
fixed_float = record {
  of_nat = λ n. plus (n * unit);
  half = plus 500_000;
  eps = plus 1;
  neg = opposite;
  le = fixed_le;
  lt = fixed_lt;
  eq = fixed_eq;
  add = fixed_add;
  sub = λ a b. fixed_add a (opposite b);
  mul = with_signs (λ a b. a * b / unit);
  quotient = with_signs (λ a b. a * unit / b);
  exp = fixed_exp;
  log = fixed_log;
  is_finite = λ a. fixed_le a a;
}

le_trans_lem : (x y z : Fixed) → x ≼ y → y ≼ z → x ≼ z
le_trans_lem x y z = ground arith

div_pos : (a q : ℕ) → q ≤ a → 0 < q → 0 < a / q
div_pos a q h k = grind arith

div_le : (a b : ℕ) → a ≤ b → 0 < b → a * unit / b ≤ unit
div_le a b h k = grind arith

exp_nonpos_lem :
    (x : Fixed) → x ≼ zero_f → (z : Fixed) × (fixed_exp x ≡ some z) × (zero_f ≼ z) × (z ≼ one_f)
exp_nonpos_lem nan h = absurd (false≢true h)
exp_nonpos_lem (plus zero) h = (plus unit, refl, refl, refl)
exp_nonpos_lem (plus (suc n)) h = absurd (ground arith)
exp_nonpos_lem (minus n) h = (plus (unit - n / 2 - 1), refl, ground arith, ground arith)

log_pos_lem : (x : Fixed) → zero_f ≺ x → (y : Fixed) × (fixed_log x ≡ some y)
log_pos_lem nan h = absurd (false≢true h)
log_pos_lem (plus zero) h = absurd (ground arith)
log_pos_lem (plus (suc n)) h = (difference (suc n) unit, refl)
log_pos_lem (minus n) h = absurd (false≢true h)

quotient_pos_lem :
    (p q : Fixed)
    → plus 1 ≼ p
    → p ≼ one_f
    → zero_f ≺ q
    → q ≼ one_f
    → zero_f ≺ fixed_float.quotient p q
quotient_pos_lem nan q a b c e = absurd (false≢true a)
quotient_pos_lem (minus p) q a b c e = absurd (false≢true a)
quotient_pos_lem (plus p) nan a b c e = absurd (false≢true c)
quotient_pos_lem (plus p) (minus q) a b c e = absurd (false≢true c)
quotient_pos_lem (plus p) (plus q) a b c e = grind (arith, div_pos (p * unit) q)

quotient_bounds_lem :
    (a b : Fixed)
    → zero_f ≼ a
    → a ≼ b
    → zero_f ≺ b
    → (zero_f ≼ fixed_float.quotient a b) × (fixed_float.quotient a b ≼ one_f)
quotient_bounds_lem nan b p q r = absurd (false≢true p)
quotient_bounds_lem (minus a) b p q r = absurd (false≢true p)
quotient_bounds_lem (plus a) nan p q r = absurd (false≢true r)
quotient_bounds_lem (plus a) (minus b) p q r = absurd (false≢true r)
quotient_bounds_lem (plus a) (plus b) p q r = ground (arith, div_le a b)

exp_nan_lem :
    (x : Fixed)
    → fixed_le x x ≡ false
    → (z : Fixed) × (fixed_exp x ≡ some z) × (fixed_le z z ≡ false)
exp_nan_lem nan h = (nan, refl, refl)
exp_nan_lem (plus n) h = absurd (ground arith)
exp_nan_lem (minus n) h = absurd (ground arith)

add_nan_lem :
    (x z : Fixed) → fixed_le z z ≡ false → fixed_le (fixed_add x z) (fixed_add x z) ≡ false
add_nan_lem nan nan h = refl
add_nan_lem (plus m) nan h = refl
add_nan_lem (minus m) nan h = refl
add_nan_lem x (plus n) h = absurd (ground arith)
add_nan_lem x (minus n) h = absurd (ground arith)

quotient_nan_lem :
    (z y : Fixed)
    → fixed_le z z ≡ false
    → fixed_le (fixed_float.quotient z y) (fixed_float.quotient z y) ≡ false
quotient_nan_lem nan y h = refl
quotient_nan_lem (plus n) y h = absurd (ground arith)
quotient_nan_lem (minus n) y h = absurd (ground arith)

pub Fixed-IsFloat : IsFloat Fixed
Fixed-IsFloat = record {
  lt-le = λ x y. ground arith;
  le_trans = le_trans_lem;
  refl_of_le = λ x y. ground arith;
  not_lt-le = λ x y. ground arith;
  lt-not_le = λ x y. ground arith;
  eq-le = λ x y. ground arith;
  zero-lt-eps = refl;
  eps-le = refl;
  one_sub_eps-le = refl;
  zero-le-one = refl;
  one_sub_antitone = λ p q. ground arith;
  one_sub_bounds = λ p. ground arith;
  one_sub_one_sub_eps = refl;
  quotient_pos = quotient_pos_lem;
  quotient_bounds = quotient_bounds_lem;
  one_add_bounds = λ z. ground arith;
  zero-lt-one = refl;
  of_nat_pos = λ n. ground arith;
  lt_le_trans = λ x y z. ground arith;
  neg_nonneg = λ x. ground arith;
  exp_nonpos = exp_nonpos_lem;
  log_pos = log_pos_lem;
  half_bounds = (refl, refl);
  exp_nan = exp_nan_lem;
  add_nan = add_nan_lem;
  quotient_nan = quotient_nan_lem;
}
