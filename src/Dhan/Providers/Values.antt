-- ===== src/Dhan/Providers/Values.antt =====
-- The values of nautilus_india/dhan/providers.py that are read off a row: the code of a segment in the
-- feed, and the places of a price.
use nautilus_trader_india.Prelude.{
  ℕ, zero, suc, ◌/◌, ◌%◌, ℤ, pos, negsuc, Option, none, some, Text, ltb, ◌==◌, if◌then◌else◌,
}
use nautilus_trader_india.Nautilus.{Decimal}
use nautilus_trader_india.Dhan.OrderUpdates.{is_pair}

-- `_SEGMENT_CODE.get((exchange, segment))`: the pair of NSE and M stands in the table for `None`.
unfoldable pub segment_code_for : Text → Text → Option ℤ
unfolding is_pair
segment_code_for exchange segment =
    let is = is_pair exchange segment in
    if is "NSE" "E"
    then some (pos 1)
    else if is "NSE" "D"
    then some (pos 2)
    else if is "NSE" "C"
    then some (pos 3)
    else if is "NSE" "I"
    then some (pos 0)
    else if is "BSE" "E"
    then some (pos 4)
    else if is "BSE" "C"
    then some (pos 7)
    else if is "BSE" "D"
    then some (pos 8)
    else if is "BSE" "I"
    then some (pos 0)
    else if is "MCX" "M"
    then some (pos 5)
    else none

-- The places of a decimal without its trailing zeros; `normalize` may go below 0, which does not
-- matter here.
unfoldable pub normal_places : ℕ → ℕ → ℕ
normal_places coefficient zero = 0
normal_places coefficient (suc places) =
    let rest = normal_places (coefficient / 10) places in
    if coefficient % 10 == 0 then rest else suc places

unfoldable pub places_of : Decimal → ℕ
places_of d = elim d.coefficient [
  | pos n ↦ normal_places n d.places
  | negsuc n ↦ normal_places (suc n) d.places
]

-- `price_precision_for`
unfoldable pub price_precision_for : Decimal → ℕ
price_precision_for tick_size =
    let places = places_of tick_size in if ltb 2 places then places else 2
