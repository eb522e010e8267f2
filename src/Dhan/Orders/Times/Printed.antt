-- ===== src/Dhan/Orders/Times/Printed.antt =====
-- A stamp that Dhan prints is read as its own instant.
use nautilus_trader_india.Prelude.{
  ℕ, suc, ◌-◌, ℤ, pos, negsuc, ◌+◌, ◌*◌, ◌/◌, ◌%◌, ◌≤◌, ◌<◌, ◌≡◌, ap, ◌∙◌, String, true, false,
  some, [], ◌∷◌, ◌++◌, Text, codes, digits, is_digit, is_prefix, any, leb, ◌==◌, arith, str_eq,
  eq_iff, Bool-cases, inl, inr, sym, ◌≢◌,
}
use nautilus_trader_india.Core.Date.{Date, is_date, days_in_month, to_ordinal}
use nautilus_trader_india.Core.Calendar.{Zone, timestamp_ns, difference, local_seconds}
use nautilus_trader_india.Dhan.Json.{Json, Rendering, truthy, py_str}
use nautilus_trader_india.Dhan.Exc.{ok}
use nautilus_trader_india.Dhan.Orders.Times.{
  field_in, day_in, literal, is_blank, skip_blanks, blanks, year_in, date_in, time_in, finished,
  strptime, instant_of, ist_to_ns,
}

-- A time of the day.
pub record Clock : Type 0 where
  pub hour : ℕ
  pub minute : ℕ
  pub second : ℕ

pub record IsClock (c : Clock) : Type 0 where
  pub hour_lt : c.hour < 24
  pub minute_lt : c.minute < 60
  pub second_lt : c.second < 60

abbrev pub seconds_of : Clock → ℕ
seconds_of c = (c.hour * 60 + c.minute) * 60 + c.second

-- `YYYY-MM-DD HH:MM:SS`
unfoldable pub printed_time : Clock → Text
printed_time c =
    b' ' ∷ (digits 2 c.hour ++ (b':' ∷ (digits 2 c.minute ++ (b':' ∷ (digits 2 c.second ++ [])))))

unfoldable pub printed : Date → Clock → Text
printed t c =
    digits 4 t.year ++ (b'-' ∷ (digits 2 t.month ++ (b'-' ∷ (digits 2 t.day ++ printed_time c))))

field_in-digits :
    (least most n : ℕ) (rest : Text)
    → n < 100
    → least ≤ n
    → n ≤ most
    → field_in least most (digits 2 n ++ rest) ≡ some (n, rest)
unfolding field_in digits is_digit
field_in-digits least most n rest small low high = ground arith

skip_blanks-digits :
    (n : ℕ) (rest : Text) → n < 100 → skip_blanks (digits 2 n ++ rest) ≡ digits 2 n ++ rest
unfolding skip_blanks is_blank digits
skip_blanks-digits n rest small = ground arith

day_in-digits :
    (n : ℕ) (rest : Text) → 1 ≤ n → n ≤ 31 → day_in (digits 2 n ++ rest) ≡ some (n, rest)
unfolding day_in digits
day_in-digits n rest low high =
    let digit : ((b'0' + n / 10 % 10) == b' ') ≡ false = ground arith in
    rw digit (field_in-digits 1 31 n rest (omega arith) low high)

year_in-digits : (n : ℕ) (rest : Text) → n < 10_000 → year_in (digits 4 n ++ rest) ≡ some (n, rest)
unfolding year_in digits is_digit
year_in-digits n rest small = ground arith

date_in-printed :
    (t : Date) (rest : Text)
    → is_date t ≡ true
    → date_in (digits 4 t.year ++ (b'-' ∷ (digits 2 t.month ++ (b'-' ∷ (digits 2 t.day ++ rest)))))
      ≡ some (t, rest)
unfolding date_in literal is_date days_in_month
date_in-printed t rest h = rw (year_in-digits t.year _ (ground arith)) (
    rw (field_in-digits 1 12 t.month _ (ground arith) (ground arith) (ground arith))
      (rw (day_in-digits t.day rest (ground arith) (ground arith))))

time_in-printed : (c : Clock) → IsClock c → time_in (printed_time c) ≡ some (seconds_of c, [])
unfolding time_in literal printed_time blanks is_blank
time_in-printed c h = rw (skip_blanks-digits c.hour _ (omega (arith, h.hour_lt))) (
    rw
      (field_in-digits 0 23 c.hour _ (omega (arith, h.hour_lt)) (omega arith)
        (omega (arith, h.hour_lt)))
      (rw
        (field_in-digits 0 59 c.minute _ (omega (arith, h.minute_lt)) (omega arith)
          (omega (arith, h.minute_lt)))
        (rw
          (field_in-digits 0 61 c.second [] (omega (arith, h.second_lt)) (omega arith)
            (omega (arith, h.second_lt)))
          (let fits : leb c.second 59 ≡ true = ground (arith, h.second_lt) in rw fits))))

has_blank : (t : Date) (c : Clock) → any (λ d. d == b' ') (printed t c) ≡ true
unfolding printed printed_time digits
has_blank t c = ground arith

strptime-printed :
    (t : Date) (c : Clock)
    → is_date t ≡ true
    → IsClock c
    → strptime (printed t c) ≡ some (t, seconds_of c)
unfolding strptime finished printed
strptime-printed t c real h =
    rw (has_blank t c)
      (rw (date_in-printed t (printed_time c) real) (rw (time_in-printed c h) (rw real)))

not_sentinel :
    (t : Date) (c : Clock)
    → 1000 ≤ t.year
    → t.year < 10_000
    → is_prefix (codes "0001-01-01") (printed t c) ≡ false
unfolding is_prefix printed digits
not_sentinel t c late early = ground arith

printed-ne-nil : (t : Date) (c : Clock) → printed t c ≢ []
unfolding printed digits
printed-ne-nil t c h = cc

not_empty :
    (stamp : String) (t : Date) (c : Clock) → codes stamp ≡ printed t c → str_eq stamp "" ≡ false
not_empty stamp t c spelled = elim (Bool-cases (str_eq stamp "")) [
  | inl e ↦
      let empty : stamp ≡ "" = (eq_iff stamp "").0 e in
      absurd (printed-ne-nil t c (sym spelled ∙ ap codes empty))
  | inr n ↦ n
]

year-lt : (t : Date) → is_date t ≡ true → t.year < 10_000
unfolding is_date
year-lt t h = ground arith

-- `ns` counts nanoseconds from the start of 1970 in UTC, which is 719162 days after the start of
-- year 1, to the local time of the day: the local clock is ahead by what the zone says.
abbrev pub IsInstant : Zone → Date → Clock → ℤ → Type 0
IsInstant zone t c (pos n) =
    let local = (to_ordinal t - 1) * 86400 + seconds_of c in
    n + (719162 * 86400 + zone local) * 1_000_000_000 ≡ local * 1_000_000_000
IsInstant zone t c (negsuc n) =
    let local = (to_ordinal t - 1) * 86400 + seconds_of c in
    local * 1_000_000_000 + suc n ≡ (719162 * 86400 + zone local) * 1_000_000_000

difference-parts :
    (a b : ℕ) (P : ℤ → Type 0)
    → ((n : ℕ) → n + b ≡ a → P (pos n))
    → ((n : ℕ) → a + suc n ≡ b → P (negsuc n))
    → P (difference a b)
unfolding difference
difference-parts a b P above below = elim (Bool-cases (leb b a)) [
  | inl e ↦ rw e (above (a - b) (ground (arith, e)))
  | inr e ↦ rw e (below (b - a - 1) (ground (arith, e)))
]

timestamp_ns-IsInstant :
    (zone : Zone) (t : Date) (c : Clock) → IsInstant zone t c (timestamp_ns zone t (seconds_of c))
unfolding timestamp_ns local_seconds
timestamp_ns-IsInstant zone t c = difference-parts _ _ (IsInstant zone t c) (λ n h. h) (λ n h. h)

ist_to_ns-timestamp_ns :
    (py : Rendering) (zone : Zone) (stamp : String) (t : Date) (c : Clock)
    → codes stamp ≡ printed t c
    → is_date t ≡ true
    → 1000 ≤ t.year
    → IsClock c
    → ist_to_ns py zone (some (Json.text stamp)) ≡ ok (timestamp_ns zone t (seconds_of c))
unfolding ist_to_ns instant_of py_str truthy
ist_to_ns-timestamp_ns py zone stamp t c spelled real late h =
    let early : t.year < 10_000 = year-lt t real in
    rw (not_empty stamp t c spelled)
      (rw spelled (rw (not_sentinel t c late early) (rw (strptime-printed t c real h, instant_of))))

-- A stamp that prints a real date from the year 1000 on and a time of the day is read as that very
-- instant of the local clock, in nanoseconds of UNIX time: local time less what the zone is ahead.
pub ist_to_ns-printed :
    (py : Rendering) (zone : Zone) (stamp : String) (t : Date) (c : Clock)
    → codes stamp ≡ printed t c
    → is_date t ≡ true
    → 1000 ≤ t.year
    → IsClock c
    → (ns : ℤ) × (ist_to_ns py zone (some (Json.text stamp)) ≡ ok ns) × IsInstant zone t c ns
ist_to_ns-printed py zone stamp t c spelled real late h = (
  timestamp_ns zone t (seconds_of c),
  ist_to_ns-timestamp_ns py zone stamp t c spelled real late h,
  timestamp_ns-IsInstant zone t c,
)
