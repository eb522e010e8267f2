-- ===== src/Core/Margin.antt =====
-- nautilus_india/core/margin.py: the margin of one position. `Money` rounds it, which is left out;
-- spot, strike and rates are not negative.
use nautilus_trader_india.Prelude.{String, ℕ, ◌+◌, ◌*◌, ◌^◌, Option, none, some, List, [], ◌∷◌}
use nautilus_trader_india.Nautilus.{Quantity, Instrument}
use nautilus_trader_india.Core.Fees.{int_of_quantity}

-- The two fractions of `MarginRates`, over one denominator.
pub record MarginRates : Type 0 where
  pub scale : ℕ
  pub span_pct : ℕ
  pub exposure_pct : ℕ

-- `total_pct`
unfoldable pub total_pct : MarginRates → ℕ
total_pct rates = rates.span_pct + rates.exposure_pct

pub data PositionSide : Type 0 where
  long short flat : PositionSide

-- What the model reads of the cache that it is bound to: the close of each bar of an instrument, in
-- the order of its bar types, `none` where there is no bar.
abbrev pub BarCache : Type 0
BarCache = String → List (Option Quantity)

-- `IndianOptionMarginModel`
pub record MarginModel : Type 0 where
  pub rates : MarginRates
  pub cache : Option BarCache
  pub index_id : Option String

-- `__init__`: the rates that are given, or those that were loaded.
unfoldable pub margin_model : MarginRates → Option MarginRates → MarginModel
margin_model loaded given = record {
  rates = elim given [ none ↦ loaded | some rates ↦ rates ];
  cache = none;
  index_id = none;
}

-- `bind_spot`
unfoldable pub bind_spot : Option BarCache → Option String → MarginModel → MarginModel
bind_spot cache index_id m = record m { cache = cache; index_id = index_id }

-- `_spot`: the close of the first bar of the index that there is, once the model is bound, and else
-- the strike.
unfoldable pub first_close : List (Option Quantity) → Quantity → Quantity
first_close [] strike = strike
first_close (none ∷ bars) strike = first_close bars strike
first_close (some close ∷ bars) strike = close

unfoldable pub spot_from : Option BarCache → Option String → Quantity → Quantity
spot_from (some cache) (some index_id) strike = first_close (cache index_id) strike
spot_from _ _ strike = strike

unfoldable pub spot : MarginModel → Quantity → Quantity
spot m strike = spot_from m.cache m.index_id strike

-- A margin is a numerator and its denominator.
abbrev pub Amount : Type 0
Amount = ℕ × ℕ

-- `_short_margin`
unfoldable pub short_margin : MarginModel → Quantity → Instrument → Quantity → Amount
short_margin m strike instrument quantity =
    let s = spot m strike in
    let units = int_of_quantity quantity * int_of_quantity instrument.multiplier in
    (s.coefficient * units * total_pct m.rates, 10 ^ s.places * m.rates.scale)

-- `calculate_margin_init`
abbrev pub calculate_margin_init : MarginModel → Quantity → Instrument → Quantity → Amount
calculate_margin_init = short_margin

-- `calculate_margin_maint`
unfoldable pub calculate_margin_maint :
    MarginModel → Quantity → Instrument → PositionSide → Quantity → Amount
calculate_margin_maint m strike instrument long quantity = (0, 1)
calculate_margin_maint m strike instrument short quantity =
    short_margin m strike instrument quantity
calculate_margin_maint m strike instrument flat quantity = short_margin m strike instrument quantity
