-- ===== src/Float.antt =====
-- What the server does with a Python `float`. The arithmetic is IEEE-754's and that of the `math`
-- module: the type and its operations are parameters, with the laws in `Float/Laws.antt`.
pub mod Laws
pub mod Fixed
use pothole_detection_server.Prelude.{
  ℕ, ◌≡◌, Bool, true, Option, none, some, if◌then◌else◌, ◌&&◌, not,
}

pub record Float (F : Type 0) : Type 0 where
  -- the integers that are written in the source, and the constants 0.5 and 1e-6
  pub of_nat : ℕ → F
  pub half : F
  pub eps : F
  pub neg : F → F
  -- `x <= y`, `x < y` and `x == y`, all false at NaN
  pub le : F → F → Bool
  pub lt : F → F → Bool
  pub eq : F → F → Bool
  pub add : F → F → F
  pub sub : F → F → F
  pub mul : F → F → F
  -- the quotient by a number that is not zero
  pub quotient : F → F → F
  -- `math.exp`, where `none` is an OverflowError, and `math.log`, where `none` is a ValueError
  pub exp : F → Option F
  pub log : F → Option F
  -- `np.isfinite`
  pub is_finite : F → Bool

module _ {F : Type 0} ⦃d : Float F⦄ where
  abbrev pub zero_f : F
  zero_f = d.of_nat 0

  abbrev pub one_f : F
  one_f = d.of_nat 1

  -- `max(a, b)` and `min(a, b)`: the first argument unless the second is beyond it.
  abbrev pub max_f : F → F → F
  max_f a b = if d.lt a b then b else a

  abbrev pub min_f : F → F → F
  min_f a b = if d.lt b a then b else a

  -- `a / b`, where `none` is a ZeroDivisionError.
  abbrev pub divide : F → F → Option F
  divide a b = if d.eq b zero_f then none else some (d.quotient a b)

  -- The constraints `ge` and `le` of pydantic, which refuses `x < lo` and `x > hi` and so lets NaN
  -- pass.
  abbrev pub at_least : F → F → Bool
  at_least lo x = not (d.lt x lo)

  abbrev pub between : F → F → F → Bool
  between lo hi x = at_least lo x && not (d.lt hi x)

infix 4 ◌≼◌ ◌≺◌
abbrev pub ◌≼◌ : {F : Type 0} ⦃d : Float F⦄ → F → F → Type 0
◌≼◌ ⦃d⦄ x y = d.le x y ≡ true

abbrev pub ◌≺◌ : {F : Type 0} ⦃d : Float F⦄ → F → F → Type 0
◌≺◌ ⦃d⦄ x y = d.lt x y ≡ true
