-- ===== src/Prelude/Texts.antt =====
-- Text as its list of code points, with a Boolean test of equality.
use Prim.Native.Nat.{ℕ}
use Prim.Native.Char.{code}
use Prim.Native.String.{String}
use mathlib.Core.Path.{◌≡◌, refl, ap₂}
use mathlib.Core.Bool.{Bool, true, false}
use mathlib.Core.List.{List, [], ◌∷◌}
use native.Mathlib.Omega.{arith}
use native.Mathlib.Decide.{ℕ_discrete}

abbrev pub Text : Type 0
Text = List ℕ

-- The code points of a literal.
abbrev pub codes : String → Text
codes String.[] = []
codes (String.◌∷◌ c s) = code c ∷ codes s

pub nil-ne-cons : {y : ℕ} {ys : Text} → ¬ ([] ≡ y ∷ ys)
nil-ne-cons e = cc

pub cons-ne-nil : {y : ℕ} {ys : Text} → ¬ (y ∷ ys ≡ [])
cons-ne-nil e = cc

pub ne_of_tail : {x y : ℕ} {xs ys : Text} → ¬ (xs ≡ ys) → ¬ (x ∷ xs ≡ y ∷ ys)
ne_of_tail n e = n (cc)

pub ne_of_head : {x y : ℕ} {xs ys : Text} → ¬ (x ≡ y) → ¬ (x ∷ xs ≡ y ∷ ys)
ne_of_head n e = n (cc)

abbrev dec_cons : {x y : ℕ} {xs ys : Text} → Dec (x ≡ y) → Dec (xs ≡ ys) → Dec (x ∷ xs ≡ y ∷ ys)
dec_cons (yes p) (yes q) = yes (ap₂ ◌∷◌ p q)
dec_cons (yes p) (no n) = no (ne_of_tail n)
dec_cons (no n) q = no (ne_of_head n)

unfoldable pub dec_text : Discrete Text
unfolding ℕ_discrete
dec_text [] [] = yes refl
dec_text [] (y ∷ ys) = no nil-ne-cons
dec_text (x ∷ xs) [] = no cons-ne-nil
dec_text (x ∷ xs) (y ∷ ys) = dec_cons (ℕ_discrete x y) (dec_text xs ys)

-- Python's `==` on two texts.
abbrev pub same : Text → Text → Bool
same a b = elim (dec_text a b) [ yes _ ↦ true | no _ ↦ false ]

pub same_refl : (a : Text) → same a a ≡ true
same_refl a = ground arith

same_test : same (codes "events") (codes "events") ≡ true
unfolding dec_text
same_test = refl

pub ne_of_same : (a b : Text) → same a b ≡ false → ¬ (a ≡ b)
ne_of_same a b h e = ground arith
