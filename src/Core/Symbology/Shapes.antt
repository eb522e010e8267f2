-- ===== src/Core/Symbology/Shapes.antt =====
-- The pieces of a symbol, found again at the end of it.
use mathlib.Core.List.{append_assoc}
use nautilus_trader_india.Prelude.{
  ℕ, ◌+◌, ◌/◌, ◌%◌, ◌≤◌, ◌<◌, ◌≡◌, ◌≢◌, refl, sym, true, none, some, [], ◌∷◌, ◌++◌, Text, length,
  length-append, last-append, init-append, digits, length-digits, digits_are_digits, is_digit, ltb,
  arith, text_eq,
}
use nautilus_trader_india.Core.Date.{Date, is_date, days_in_month}
use nautilus_trader_india.Core.Symbology.{
  future, stamp_of, year_of, is_month_text, is_day_text, number_of_two, try_date, expiry_in,
  option_key, option_in, as_option, future_key, as_future, future_suffix, is_right,
}

-- A date that two digits of its year can name.
pub record IsListed (t : Date) : Type 0 where
  pub is_real : is_date t ≡ true
  pub from_1969 : 1969 ≤ t.year
  pub to_2068 : t.year ≤ 2068

two_digits :
    (n : ℕ)
    → n < 100
    → let a = b'0' + n / 10 % 10 in
      let b = b'0' + n % 10 in (is_digit a ≡ true) × (is_digit b ≡ true) × (number_of_two a b ≡ n)
unfolding is_digit number_of_two
two_digits n h = (ground arith, ground arith, ground arith)

year_of-mod : (y : ℕ) → 1969 ≤ y → y ≤ 2068 → year_of (y % 100) ≡ y
unfolding year_of
year_of-mod y from to = ground arith

is_date-lt : (t : Date) → is_date t ≡ true → (t.month < 100) × (t.day < 100)
unfolding is_date days_in_month
is_date-lt t h = (ground arith, ground arith)

pub try_date-stamp_of : (t : Date) → IsListed t → try_date (stamp_of t) ≡ some t
unfolding stamp_of try_date digits is_month_text is_day_text
try_date-stamp_of t listed =
    let (month_lt, day_lt) = is_date-lt t listed.is_real in
    let (y1, y2, y) = two_digits (t.year % 100) (omega arith) in
    let (m1, m2, m) = two_digits t.month month_lt in
    let (d1, d2, d) = two_digits t.day day_lt in
    let year = year_of-mod t.year listed.from_1969 listed.to_2068 in
    rw y1 (rw y2 (rw m1 (rw m2 (rw d1 (rw d2 (rw y (rw m (rw d (rw year (rw listed.is_real))))))))))

pub length-stamp_of : (t : Date) → length (stamp_of t) ≡ 6
unfolding stamp_of digits
length-stamp_of t = refl

pub expiry_in-stamp_of :
    (u : Text) (t : Date) → u ≢ [] → IsListed t → expiry_in (u ++ stamp_of t) ≡ some t
unfolding expiry_in
expiry_in-stamp_of [] t named listed = absurd (named refl)
expiry_in-stamp_of (c ∷ u) t named listed =
    let long : ltb 6 (length ((c ∷ u) ++ stamp_of t)) ≡ true =
      ground (arith, length-append (c ∷ u) (stamp_of t), length-stamp_of t) in
    rw long
      (rw (last-append 6 (c ∷ u) (stamp_of t) (length-stamp_of t)) (try_date-stamp_of t listed))

-- A future's symbol is read as no option, and its expiry and underlying are found.
pub as_future-symbol :
    (u : Text) (t : Date)
    → u ≢ []
    → IsListed t
    → as_future (u ++ stamp_of t ++ future_suffix)
      ≡ some (record {
        underlying = u;
        instrument_class = future;
        expiry = some t;
        strike = none;
        right = none;
      })
unfolding as_future future_key text_eq
as_future-symbol u t named listed = rw (last-append 3 (u ++ stamp_of t) future_suffix refl) (
    rw (init-append 3 (u ++ stamp_of t) future_suffix refl) (
      rw (expiry_in-stamp_of u t named listed)
        (rw (init-append 6 u (stamp_of t) (length-stamp_of t)))))

pub as_option-none : (u : Text) → as_option (u ++ future_suffix) ≡ none
unfolding as_option is_right text_eq
as_option-none u =
    rw (sym (append_assoc u (b'F' ∷ []) (b'U' ∷ b'T' ∷ [])))
      (rw (last-append 2 (u ++ b'F' ∷ []) (b'U' ∷ b'T' ∷ []) refl))

option_in-symbol :
    (u : Text) (t : Date) (paise : ℕ) (r : Text)
    → u ≢ []
    → IsListed t
    → option_in (u ++ stamp_of t ++ digits 9 paise) r
      ≡ option_key (u ++ stamp_of t) (digits 9 paise) r (some t)
unfolding option_in
option_in-symbol u t paise r named listed =
    let nine = length-digits 9 paise in
    rw (last-append 9 (u ++ stamp_of t) (digits 9 paise) nine) (
      rw (init-append 9 (u ++ stamp_of t) (digits 9 paise) nine)
        (rw nine (rw (digits_are_digits 9 paise) (rw (expiry_in-stamp_of u t named listed)))))

pub as_option-symbol :
    (u : Text) (t : Date) (paise : ℕ) (r : Text)
    → u ≢ []
    → IsListed t
    → length r ≡ 2
    → is_right r ≡ true
    → as_option (u ++ stamp_of t ++ digits 9 paise ++ r)
      ≡ option_key (u ++ stamp_of t) (digits 9 paise) r (some t)
unfolding as_option
as_option-symbol u t paise r named listed two is_r =
    rw (last-append 2 (u ++ stamp_of t ++ digits 9 paise) r two) (
      rw (init-append 2 (u ++ stamp_of t ++ digits 9 paise) r two)
        (rw is_r (option_in-symbol u t paise r named listed)))
