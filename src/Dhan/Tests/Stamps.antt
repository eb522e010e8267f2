-- ===== src/Dhan/Tests/Stamps.antt =====
-- A printed stamp.
use nautilus_trader_india.Prelude.{◌≡◌, refl, some, arith, digits, ℤ}
use nautilus_trader_india.Core.Date.{Date, is_date, days_in_month, is_leap}
use nautilus_trader_india.Dhan.Json.{Json}
use nautilus_trader_india.Dhan.Exc.{ok}
use nautilus_trader_india.Dhan.Orders.Times.{ist_to_ns}
use nautilus_trader_india.Dhan.Orders.Times.Printed.{
  Clock, IsClock, IsInstant, printed, printed_time, ist_to_ns-printed,
}
use nautilus_trader_india.Dhan.Tests.Fixtures.{py, kolkata}

abbrev placed_on : Date
placed_on = record { year = 2026; month = 9; day = 8 }

abbrev opening : Clock
opening = record { hour = 9; minute = 15; second = 1 }

opening-IsClock : IsClock opening
opening-IsClock = record { hour_lt = omega arith; minute_lt = omega arith; second_lt = omega arith }

ist_to_ns-printed_example :
    (ns : ℤ) × (ist_to_ns py kolkata (some (Json.text "2026-09-08 09:15:01")) ≡ ok ns)
    × IsInstant kolkata placed_on opening ns
unfolding printed printed_time is_date days_in_month is_leap digits
ist_to_ns-printed_example =
    ist_to_ns-printed py kolkata "2026-09-08 09:15:01" placed_on opening refl refl (omega arith)
      opening-IsClock
