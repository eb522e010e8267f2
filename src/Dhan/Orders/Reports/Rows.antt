-- ===== src/Dhan/Orders/Reports/Rows.antt =====
-- How the values of a row are read.
use nautilus_trader_india.Prelude.{
  ℤ, String, Bool, false, Option, none, some, str_eq, if◌then◌else◌,
}
use nautilus_trader_india.Nautilus.{Decimal, Library}
use nautilus_trader_india.Dhan.Json.{Json, Items, Fields, Number, Rendering, get, truthy, py_str}
use nautilus_trader_india.Dhan.Exc.{Result, ok, err, key_error, attribute_error, type_error, ◌>>=◌}
use nautilus_trader_india.Core.Calendar.{Zone}

-- What reading a row takes from outside: `str()`, the library, the zone of Kolkata,
-- `Price.from_str` of a value's text, and `Decimal` of the text and `int` of a value that is no
-- number.
pub record Reading : Type 0 where
  pub py : Rendering
  pub lib : Library
  pub zone : Zone
  pub price_from : Json → Result Decimal
  pub decimal_from : Json → Result Number
  pub int_from : Json → Result ℤ

-- `bool(row.get(key))`
unfoldable pub value_of : Option Json → Bool
value_of none = false
value_of (some v) = truthy v

-- `row.get(key) == word`
unfoldable pub is_text : Option Json → String → Bool
is_text (some (Json.text s)) word = str_eq s word
is_text _ word = false

-- `str(row[key])`
unfoldable pub required : Rendering → String → Fields → Result String
required py key row = elim (get key row) [ none ↦ err key_error | some v ↦ ok (py_str py v) ]

-- `Decimal(str(value))`
unfoldable pub decimal_of : Reading → Json → Result Number
decimal_of r (Json.num n) = ok n
decimal_of r v = r.decimal_from v

-- `Decimal(str(value)) if value else None`. It also reads `Decimal(str(value or 0))`, with `none`
-- for the 0.
unfoldable pub decimal_or_none : Reading → Option Json → Result (Option Number)
unfolding decimal_of
decimal_or_none r none = ok none
decimal_or_none r (some v) = if truthy v then (do n ← decimal_of r v; ok (some n)) else ok none

abbrev pub number_in : Reading → Option Json → Result (Option Number)
number_in = decimal_or_none

-- `_price_or_none`
unfoldable pub price_or_none : Reading → Option Json → Result (Option Decimal)
price_or_none r none = ok none
price_or_none r (some v) = if truthy v then (do p ← r.price_from v; ok (some p)) else ok none

-- `Price.from_str(str(row[key]))`
unfoldable pub required_price : Reading → String → Fields → Result Decimal
required_price r key row = elim (get key row) [ none ↦ err key_error | some v ↦ r.price_from v ]

-- `rows or []`, and what a loop over it meets: the keys of an object and the characters of a text
-- have no `get`, and a number is not iterable.
unfoldable pub rows_of : Json → Result Items
rows_of (Json.arr rows) = ok rows
rows_of (Json.num n) = if truthy (Json.num n) then err type_error else ok Items.nil
rows_of (Json.bool b) = if b then err type_error else ok Items.nil
rows_of body = if truthy body then err attribute_error else ok Items.nil
