-- ===== src/Prelude/Decimal.antt =====
-- Python's `str` of a natural number, and `int` of a text of decimal digits.
use Prim.Native.Nat.{ℕ, zero, suc, ◌+◌, ◌-◌, ◌*◌, ◌/◌, ◌%◌, ◌<◌}
use mathlib.Core.Path.{◌≡◌, refl, ◌∙◌}
use mathlib.Core.Bool.{◌&&◌}
use mathlib.Core.Option.{Option, none, some}
use mathlib.Core.List.{[], ◌∷◌, ◌++◌, concat-ne-nil}
use native.Mathlib.Omega.{arith}
use pothole_detection_server.Prelude.Tests.{leb, ltb, if◌then◌else◌, Bool-cases}
use pothole_detection_server.Prelude.Texts.{Text, codes}
use mathlib.Core.Logic.{inl, inr, ◌≢◌}

-- The digits of `n`, of which there are fewer than the fuel.
unfoldable pub digits : ℕ → ℕ → Text
digits zero n = []
digits (suc fuel) n =
    let rest = digits fuel (n / 10) in
    if ltb n 10 then (b'0' + n) ∷ [] else rest ++ ((b'0' + n % 10) ∷ [])

-- `str(n)`
unfoldable pub str : ℕ → Text
unfolding digits
str n = digits (suc n) n

unfoldable pub read_digits : ℕ → Text → Option ℕ
read_digits n [] = some n
read_digits n (c ∷ s) =
    let rest = read_digits (n * 10 + (c - b'0')) s in
    if leb b'0' c && leb c b'9' then rest else none

-- `int(s)` where `s` has decimal digits only, as the texts that `str` writes; `none` stands for any
-- other text.
unfoldable pub int : Text → Option ℕ
unfolding read_digits
int [] = none
int (c ∷ s) = read_digits 0 (c ∷ s)

read_digits-append :
    (n c m : ℕ) (s : Text)
    → read_digits n s ≡ some m
    → c < 10
    → read_digits n (s ++ ((b'0' + c) ∷ [])) ≡ some (m * 10 + c)
unfolding read_digits
read_digits-append n c m [] e h = ground arith
read_digits-append n c m (x ∷ s) e h =
    ground (arith, read_digits-append (n * 10 + (x - b'0')) c m s)

-- Enough fuel is one more than the number.
read_digits-digits : (fuel n : ℕ) → n < fuel → read_digits 0 (digits fuel n) ≡ some n
unfolding digits read_digits
read_digits-digits zero n h = absurd (omega arith)
read_digits-digits (suc fuel) n h = elim (Bool-cases (ltb n 10)) [
  | inl one ↦ rw (one, digits) (ground arith)
  | inr more ↦
      let rest = read_digits-digits fuel (n / 10) (ground arith) in
      let last = read_digits-append 0 (n % 10) (n / 10) (digits fuel (n / 10)) rest (omega arith) in
      rw (more, digits) (ground (arith, last))
]

digits-ne-nil : (fuel n : ℕ) → digits (suc fuel) n ≢ []
unfolding digits
digits-ne-nil fuel n = ground (arith, concat-ne-nil (b'0' + n % 10) (digits fuel (n / 10)))

int-read_digits : (s : Text) → s ≢ [] → int s ≡ read_digits 0 s
unfolding int
int-read_digits [] h = absurd (h refl)
int-read_digits (c ∷ s) h = refl

-- `int(str(n))` is `n`.
pub int-str : (n : ℕ) → int (str n) ≡ some n
unfolding str
int-str n =
    int-read_digits (digits (suc n) n) (digits-ne-nil n n)
    ∙ read_digits-digits (suc n) n (omega arith)

str_test : (str 0 ≡ codes "0") × (str 1205 ≡ codes "1205")
unfolding str
str_test = (refl, refl)
