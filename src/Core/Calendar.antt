-- ===== src/Core/Calendar.antt =====
-- nautilus_india/core/calendar.py: the sessions of the exchanges, and instants of Indian time. How far
-- the zone of Kolkata is ahead at a local time is an argument, in seconds.
use nautilus_trader_india.Prelude.{
  ℕ, ◌+◌, ◌-◌, ◌*◌, ◌%◌, ℤ, pos, negsuc, Bool, false, ◌&&◌, Option, none, some, leb, if◌then◌else◌,
}
use nautilus_trader_india.Core.Date.{Date, to_ordinal}
use nautilus_trader_india.Core.Symbology.{Exchange, nse, bse, mcx}

-- Local seconds since the first of January of year 1 to the seconds that the zone is ahead.
abbrev pub Zone : Type 0
Zone = ℕ → ℕ

abbrev pub nanos_per_second : ℕ
nanos_per_second = 1_000_000_000

-- a - b
unfoldable pub difference : ℕ → ℕ → ℤ
difference a b = if leb b a then pos (a - b) else negsuc (b - a - 1)

-- Local seconds since the first of January of year 1, where 1970 starts after 719162 days.
unfoldable pub local_seconds : Date → ℕ → ℕ
local_seconds t seconds = (to_ordinal t - 1) * 86400 + seconds

-- The instant of a local time, in nanoseconds of UNIX time: `int(parsed.timestamp())` of
-- nautilus_india/dhan/orders.py, and `dt_to_unix_nanos` of whole seconds.
unfoldable pub timestamp_ns : Zone → Date → ℕ → ℤ
timestamp_ns zone t seconds =
    let local = local_seconds t seconds in
    difference (local * nanos_per_second) ((719162 * 86400 + zone local) * nanos_per_second)

-- `time(hour, minute)`, in seconds.
abbrev pub clock : ℕ → ℕ → ℕ
clock hour minute = (hour * 60 + minute) * 60

-- _SESSIONS
unfoldable pub session_bounds : Exchange → ℕ × ℕ
session_bounds nse = (clock 9 15, clock 15 30)
session_bounds bse = (clock 9 15, clock 15 30)
session_bounds mcx = (clock 9 0, clock 23 30)

-- `day.weekday()`: Monday is 0.
unfoldable pub weekday : Date → ℕ
weekday day = (to_ordinal day + 6) % 7

-- A datetime without a zone, or one that `astimezone(IST)` gives: a date and the microseconds of the
-- day.
pub data Now : Type 0 where
  naive : Now
  aware : Date → ℕ → Now

abbrev pub micros : ℕ
micros = 1_000_000

-- `is_open`; `none` is `NaiveDatetimeError`.
unfoldable pub is_open : Exchange → Now → Option Bool
is_open exchange naive = none
is_open exchange (aware day moment) =
    if leb 5 (weekday day)
    then some false
    else (let (start, end) = session_bounds exchange in
        some (leb (start * micros) moment && leb moment (end * micros)))
