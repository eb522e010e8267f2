-- ===== src/Core/Date.antt =====
-- Python's `date`, as nautilus_india uses it: which dates there are, their order and their number.
use nautilus_trader_india.Prelude.{
  ℕ, zero, suc, ◌+◌, ◌-◌, ◌*◌, ◌/◌, ◌%◌, Bool, not, ◌&&◌, ◌||◌, leb, ◌==◌, if◌then◌else◌,
}

pub record Date : Type 0 where
  pub year : ℕ
  pub month : ℕ
  pub day : ℕ

unfoldable pub is_leap : ℕ → Bool
is_leap y = (y % 4 == 0) && (not (y % 100 == 0) || (y % 400 == 0))

unfoldable pub days_in_month : ℕ → ℕ → ℕ
days_in_month y m =
    if m == 2
    then (if is_leap y then 29 else 28)
    else if (m == 4) || ((m == 6) || ((m == 9) || (m == 11)))
    then 30
    else 31

-- `date(y, m, d)` raises no `ValueError`.
unfoldable pub is_date : Date → Bool
is_date t =
    (leb 1 t.year && leb t.year 9999)
    && ((leb 1 t.month && leb t.month 12)
        && (leb 1 t.day && leb t.day (days_in_month t.year t.month)))

-- A number that orders dates as `date` does, while a month has fewer than 100 days.
abbrev pub ordinal : Date → ℕ
ordinal d = (d.year * 100 + d.month) * 100 + d.day

-- The days of the months of a year before a month.
unfoldable pub days_before_month : ℕ → ℕ → ℕ
days_before_month y zero = 0
days_before_month y (suc zero) = 0
days_before_month y (suc (suc m)) = days_before_month y (suc m) + days_in_month y (suc m)

-- `t.toordinal()`: the first of January of year 1 is day 1.
unfoldable pub to_ordinal : Date → ℕ
to_ordinal t =
    let p = t.year - 1 in
    p * 365 + p / 4 - p / 100 + p / 400 + days_before_month t.year t.month + t.day
