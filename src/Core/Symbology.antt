-- ===== src/Core/Symbology.antt =====
-- nautilus_india/core/symbology.py: the canonical symbol of a contract, and its reading. `none`
-- stands for `SymbolFormatError` in what encodes. Texts are lists of code points, and characters
-- beyond ASCII are neither digits nor letters with a case.
pub mod Shapes
pub mod RoundTrip
use nautilus_trader_india.Prelude.{
  ℕ, ◌+◌, ◌-◌, ◌*◌, ◌/◌, ◌%◌, ◌^◌, ℤ, pos, negsuc, Bool, true, false, not, ◌&&◌, ◌||◌, Option, none,
  some, List, [], ◌∷◌, ◌++◌, map, Text, length, last, init, digits, number, all, is_digit, to_upper,
  text_eq, leb, ltb, ◌==◌, or_else, if◌then◌else◌,
}
use nautilus_trader_india.Nautilus.{Decimal}
use nautilus_trader_india.Core.Date.{Date, is_date}

pub data InstrumentClass : Type 0 where
  equity index future option : InstrumentClass

pub record ContractKey : Type 0 where
  pub underlying : Text
  pub instrument_class : InstrumentClass
  pub expiry : Option Date
  pub strike : Option Decimal
  pub right : Option Text

abbrev pub call : Text
call = b'C' ∷ b'E' ∷ []

abbrev pub put : Text
put = b'P' ∷ b'E' ∷ []

abbrev pub future_suffix : Text
future_suffix = b'F' ∷ b'U' ∷ b'T' ∷ []

-- nautilus_india/core/enums.py; the venue of an exchange has its name.
pub data Exchange : Type 0 where
  nse bse mcx : Exchange

-- `right in _RIGHTS`
unfoldable pub is_right : Text → Bool
is_right t = text_eq t call || text_eq t put

unfoldable pub upper : Text → Text
unfolding to_upper
upper = map to_upper

-- `_strike_to_paise` on the strike's coefficient and places.
unfoldable pub paise_of : ℤ → ℕ → Option ℕ
paise_of (negsuc n) places = none
paise_of (pos n) places =
    if (n * 100 % 10 ^ places == 0) && ltb (n * 100 / 10 ^ places) 1_000_000_000
    then some (n * 100 / 10 ^ places)
    else none

unfoldable pub strike_to_paise : Decimal → Option ℕ
strike_to_paise strike = paise_of strike.coefficient strike.places

-- `f"{expiry:%y%m%d}"`
unfoldable pub stamp_of : Date → Text
stamp_of t = digits 2 (t.year % 100) ++ digits 2 t.month ++ digits 2 t.day

-- The symbol of an option, once its strike is in paise.
unfoldable pub option_symbol : Text → Date → ℕ → Text → Text
option_symbol underlying expiry paise right =
    upper underlying ++ stamp_of expiry ++ digits 9 paise ++ right

unfoldable pub with_paise : Text → Date → Option ℕ → Text → Option Text
with_paise underlying expiry none right = none
with_paise underlying expiry (some paise) right = some (option_symbol underlying expiry paise right)

-- The end of `to_symbol`: the right is looked at before the strike.
unfoldable pub with_right : Text → Date → Option Decimal → Option Text → Option Text
with_right underlying expiry strike none = none
with_right underlying expiry none (some right) = none
with_right underlying expiry (some strike) (some right) =
    if is_right right then with_paise underlying expiry (strike_to_paise strike) right else none

unfoldable pub symbol_for :
    InstrumentClass → Text → Option Date → Option Decimal → Option Text → Option Text
symbol_for equity underlying expiry strike right = some (upper underlying)
symbol_for index underlying expiry strike right = some (upper underlying)
symbol_for future underlying none strike right = none
symbol_for future underlying (some t) strike right =
    some (upper underlying ++ stamp_of t ++ future_suffix)
symbol_for option underlying none strike right = none
symbol_for option underlying (some t) strike right = with_right underlying t strike right

unfoldable pub to_symbol : ContractKey → Option Text
to_symbol key = symbol_for key.instrument_class key.underlying key.expiry key.strike key.right

-- `%y`: the two digits of a year from 1969 to 2068.
unfoldable pub year_of : ℕ → ℕ
year_of yy = if leb yy 68 then 2000 + yy else 1900 + yy

-- The two characters of `%m`, and of `%d`, whose first may be a blank.
unfoldable pub is_month_text : ℕ → ℕ → Bool
is_month_text a b = is_digit a && is_digit b

unfoldable pub is_day_text : ℕ → ℕ → Bool
is_day_text a b = (is_digit a || (a == b' ')) && is_digit b

unfoldable pub number_of_two : ℕ → ℕ → ℕ
number_of_two a b = (if a == b' ' then 0 else a - b'0') * 10 + (b - b'0')

-- `_try_date` on six characters; `strptime` takes no other number of them here.
unfoldable pub try_date : Text → Option Date
try_date (y1 ∷ y2 ∷ m1 ∷ m2 ∷ d1 ∷ d2 ∷ []) =
    let t : Date = record {
      year = year_of (number_of_two y1 y2);
      month = number_of_two m1 m2;
      day = number_of_two d1 d2;
    } in
    if (is_digit y1 && is_digit y2) && (is_month_text m1 m2 && is_day_text d1 d2) && is_date t
    then some t
    else none
try_date _ = none

-- `_try_date(head[-6:]) if len(head) > 6 else None`
unfoldable pub expiry_in : Text → Option Date
expiry_in head = if ltb 6 (length head) then try_date (last 6 head) else none

unfoldable pub option_key : Text → Text → Text → Option Date → Option ContractKey
option_key head paise right none = none
option_key head paise right (some t) = some (record {
  underlying = init 6 head;
  instrument_class = option;
  expiry = some t;
  strike = some (record { coefficient = pos (number paise); places = 2 });
  right = some right;
})

-- The strike and the expiry, before the two last characters.
unfoldable pub option_in : Text → Text → Option ContractKey
option_in head right =
    if ltb (length (last 9 head)) 9 || not (all is_digit (last 9 head))
    then none
    else option_key (init 9 head) (last 9 head) right (expiry_in (init 9 head))

-- `_as_option`
unfoldable pub as_option : Text → Option ContractKey
as_option symbol =
    if is_right (last 2 symbol) then option_in (init 2 symbol) (last 2 symbol) else none

unfoldable pub future_key : Text → Option Date → Option ContractKey
future_key head none = none
future_key head (some t) = some (record {
  underlying = init 6 head;
  instrument_class = future;
  expiry = some t;
  strike = none;
  right = none;
})

-- `_as_future`
unfoldable pub as_future : Text → Option ContractKey
as_future symbol =
    if text_eq (last 3 symbol) future_suffix
    then future_key (init 3 symbol) (expiry_in (init 3 symbol))
    else none

abbrev pub equity_key : Text → ContractKey
equity_key symbol = record {
  underlying = symbol;
  instrument_class = equity;
  expiry = none;
  strike = none;
  right = none;
}

-- `parse_symbol`
unfoldable pub parse_symbol : Text → Option ContractKey
parse_symbol [] = none
parse_symbol (c ∷ t) =
    let symbol = c ∷ t in
    or_else (as_option symbol) (or_else (as_future symbol) (some (equity_key symbol)))

-- `to_instrument_id`: the symbol and the venue.
unfoldable pub to_instrument_id : ContractKey → Exchange → Option (Text × Exchange)
to_instrument_id key exchange = elim (to_symbol key) [
  | none ↦ none
  | some symbol ↦ some (symbol, exchange)
]
