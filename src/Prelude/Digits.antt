-- ===== src/Prelude/Digits.antt =====
-- Decimal digits: a number printed at a fixed width, and a text of digits read.
use Prim.Native.Nat.{ℕ, zero, suc, ◌+◌, ◌-◌, ◌*◌, ◌/◌, ◌%◌, ◌<◌}
use mathlib.Core.Path.{◌≡◌, refl, ◌∙◌}
use mathlib.Core.Bool.{Bool, true, ◌&&◌}
use mathlib.Core.List.{List, [], ◌∷◌, ◌++◌}
use native.Mathlib.Omega.{arith}
use nautilus_trader_india.Prelude.Lists.{length, length-append, all}
use nautilus_trader_india.Prelude.Chars.{Text, is_digit}

abbrev pub ten_to : ℕ → ℕ
ten_to zero = 1
ten_to (suc n) = 10 * ten_to n

-- `f"{n:0{width}d}"` for a number that fits the width.
unfoldable pub digits : ℕ → ℕ → Text
digits zero n = []
digits (suc width) n = digits width (n / 10) ++ (b'0' + n % 10) ∷ []

-- `int(t)` for a text of digits.
unfoldable pub number_from : ℕ → Text → ℕ
number_from n [] = n
number_from n (c ∷ t) = number_from (n * 10 + (c - b'0')) t

abbrev pub number : Text → ℕ
number = number_from 0

pub length-digits : (width n : ℕ) → length (digits width n) ≡ width
unfolding digits
length-digits zero n = refl
length-digits (suc width) n = omega (
  arith,
  length-append (digits width (n / 10)) ((b'0' + n % 10) ∷ []),
  length-digits width (n / 10),
)

number_from-append : (n : ℕ) (s t : Text) → number_from n (s ++ t) ≡ number_from (number_from n s) t
unfolding number_from
number_from-append n [] t = refl
number_from-append n (c ∷ s) t = number_from-append (n * 10 + (c - b'0')) s t

last_digit : (m n : ℕ) → number_from m ((b'0' + n % 10) ∷ []) ≡ m * 10 + n % 10
unfolding number_from
last_digit m n = omega arith

-- A number that fits the width is read back from its print.
pub number-digits : (width n : ℕ) → n < ten_to width → number (digits width n) ≡ n
unfolding digits
number-digits zero n h = unfold number_from in omega arith
number-digits (suc width) n h =
    let before = number-digits width (n / 10) (omega arith) in
    number_from-append 0 (digits width (n / 10)) _
    ∙ last_digit (number (digits width (n / 10))) n
    ∙ omega (arith, before)

all-append : {A : Type 0} (p : A → Bool) (xs ys : List A) → all p (xs ++ ys) ≡ all p xs && all p ys
all-append p [] ys = refl
all-append p (x ∷ xs) ys = ground (arith, all-append p xs ys)

one_digit : (n : ℕ) → all is_digit ((b'0' + n % 10) ∷ []) ≡ true
unfolding is_digit
one_digit n = ground arith

pub digits_are_digits : (width n : ℕ) → all is_digit (digits width n) ≡ true
unfolding digits
digits_are_digits zero n = refl
digits_are_digits (suc width) n =
    all-append is_digit (digits width (n / 10)) ((b'0' + n % 10) ∷ [])
    ∙ rw (digits_are_digits width (n / 10)) (one_digit n)
