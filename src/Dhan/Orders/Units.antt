-- ===== src/Dhan/Orders/Units.antt =====
-- `units_for` and `lots_for` of nautilus_india/dhan/orders.py: Dhan counts units, Nautilus contracts.
-- The 28 digits at which Python's decimal context rounds a product are not reached here.
pub mod Exact
use nautilus_trader_india.Prelude.{
  ℕ, zero, suc, ◌+◌, ◌*◌, ◌/◌, ◌%◌, ◌^◌, ◌≤◌, ◌<◌, ◌≡◌, ◌≢◌, ◌↔◌, refl, ap, Option, none, some,
  arith, ◌==◌, if◌then◌else◌,
}
use nautilus_trader_india.Nautilus.{Quantity, Instrument}
use nautilus_trader_india.Dhan.Json.{Number}
use nautilus_trader_india.Dhan.Exc.{Result, ok, err, value_error, arithmetic_error}

-- `units_for`: `int` drops what is behind the point.
unfoldable pub units_for : Instrument → Quantity → ℕ
units_for instrument quantity =
    quantity.coefficient
    * instrument.multiplier.coefficient
    / 10 ^ (quantity.places + instrument.multiplier.places)

-- A whole number of contracts, `Quantity.from_str(str(int(lots)))`.
abbrev pub contracts : ℕ → Quantity
contracts n = record { coefficient = n; places = 0 }

-- `divmod(count, lot)` on two decimals: a zero lot is an error of the decimal module, and a
-- remainder is refused.
unfoldable pub whole_lots : ℕ → ℕ → Result Quantity
whole_lots count lot =
    if lot == 0
    then err arithmetic_error
    else if count % lot == 0
    then ok (contracts (count / lot))
    else err value_error

-- `lots_for`: the two decimals are brought to one denominator.
unfoldable pub lots_for : Instrument → Option Number → Result Quantity
unfolding whole_lots
lots_for instrument none = whole_lots 0 (instrument.multiplier.coefficient)
lots_for instrument (some units) =
    whole_lots (units.coefficient * 10 ^ instrument.multiplier.places)
      (instrument.multiplier.coefficient * 10 ^ units.places)
