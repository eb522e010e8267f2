-- ===== src/Dhan/Orders/Times.antt =====
-- `ist_to_ns` of nautilus_india/dhan/orders.py, with the parts of `strptime` that its two formats
-- use. How far the zone of Kolkata is ahead at a local time is an argument, in seconds.
pub mod Printed
use nautilus_trader_india.Prelude.{
  ℕ, ◌+◌, ◌-◌, ◌*◌, ℤ, pos, negsuc, String, Bool, true, false, not, ◌&&◌, ◌||◌, Option, none, some,
  List, [], ◌∷◌, Text, codes, is_digit, is_prefix, leb, ltb, ◌==◌, any, if◌then◌else◌,
}
use nautilus_trader_india.Core.Date.{Date, is_date}
use nautilus_trader_india.Core.Calendar.{Zone, timestamp_ns}
use nautilus_trader_india.Dhan.Json.{Json, Rendering, truthy, py_str}
use nautilus_trader_india.Dhan.Exc.{Result, ok, err, value_error}

unfoldable pub is_blank : ℕ → Bool
is_blank c = (c == 32) || (leb 9 c && leb c 13)

-- One digit of a field with a least value.
unfoldable pub one_digit : ℕ → ℕ → Text → Option (ℕ × Text)
one_digit least a rest = if is_digit a && leb least (a - b'0') then some (a - b'0', rest) else none

-- `%m`, `%d`, `%H`, `%M` or `%S`: two digits in the range, else one.
unfoldable pub field_in : ℕ → ℕ → Text → Option (ℕ × Text)
unfolding one_digit
field_in least most [] = none
field_in least most (a ∷ []) = one_digit least a []
field_in least most (a ∷ b ∷ rest) =
    let n = (a - b'0') * 10 + (b - b'0') in
    if (is_digit a && is_digit b) && (leb least n && leb n most)
    then some (n, rest)
    else one_digit least a (b ∷ rest)

-- `%d` also takes a blank and one digit.
unfoldable pub day_in : Text → Option (ℕ × Text)
unfolding field_in one_digit
day_in [] = none
day_in (c ∷ rest) =
    if c == b' '
    then elim rest [ [] ↦ none | b ∷ more ↦ one_digit 1 b more ]
    else field_in 1 31 (c ∷ rest)

-- A character of the format that stands for itself.
unfoldable pub literal : ℕ → Text → Option Text
literal c [] = none
literal c (d ∷ rest) = if c == d then some rest else none

-- A blank of the format: one or more.
unfoldable pub skip_blanks : Text → Text
skip_blanks [] = []
skip_blanks (c ∷ rest) = let more = skip_blanks rest in if is_blank c then more else c ∷ rest

unfoldable pub blanks : Text → Option Text
unfolding skip_blanks
blanks [] = none
blanks (c ∷ rest) = if is_blank c then some (skip_blanks rest) else none

unfoldable pub year_in : Text → Option (ℕ × Text)
year_in (a ∷ b ∷ c ∷ d ∷ rest) =
    if (is_digit a && is_digit b) && (is_digit c && is_digit d)
    then some ((((a - b'0') * 10 + (b - b'0')) * 10 + (c - b'0')) * 10 + (d - b'0'), rest)
    else none
year_in _ = none

infixl 5 ◌>>=◌
abbrev pub ◌>>=◌ : {A B : Type 0} → Option A → (A → Option B) → Option B
none >>= rest = none
some a >>= rest = rest a

-- `%Y-%m-%d`, and what stands behind it.
unfoldable pub date_in : Text → Option (Date × Text)
unfolding literal
date_in t = do
  (y, t) ← year_in t
  t ← literal b'-' t
  (m, t) ← field_in 1 12 t
  t ← literal b'-' t
  (d, t) ← day_in t
  some (record { year = y; month = m; day = d }, t)

-- ` %H:%M:%S`, as seconds of the day; a second of 60 or more is no time.
unfoldable pub time_in : Text → Option (ℕ × Text)
unfolding literal
time_in t = do
  t ← blanks t
  (h, t) ← field_in 0 23 t
  t ← literal b':' t
  (m, t) ← field_in 0 59 t
  t ← literal b':' t
  (s, t) ← field_in 0 61 t
  if leb s 59 then some ((h * 60 + m) * 60 + s, t) else none

-- Nothing may be left over, and the date must exist.
unfoldable pub finished : Date × Text → ℕ → Option (Date × ℕ)
finished (t, []) seconds = if is_date t then some (t, seconds) else none
finished (t, c ∷ rest) seconds = none

-- `datetime.strptime(text, fmt)`: a date and the seconds of the day.
unfoldable pub strptime : Text → Option (Date × ℕ)
unfolding finished
strptime text =
    if any (λ c. c == b' ') text
    then (do (t, rest) ← date_in text; (seconds, rest) ← time_in rest; finished (t, rest) seconds)
    else (do (t, rest) ← date_in text; finished (t, rest) 0)

-- A text that is neither empty nor the sentinel.
unfoldable pub instant_of : Zone → Text → Result ℤ
instant_of zone text = elim (strptime text) [
  | none ↦ err value_error
  | some (t, seconds) ↦ ok (timestamp_ns zone t seconds)
]

-- `ist_to_ns`
unfoldable pub ist_to_ns : Rendering → Zone → Option Json → Result ℤ
unfolding instant_of
ist_to_ns py zone none = ok (pos 0)
ist_to_ns py zone (some stamp) =
    if not (truthy stamp) || is_prefix (codes "0001-01-01") (codes (py_str py stamp))
    then ok (pos 0)
    else instant_of zone (codes (py_str py stamp))
