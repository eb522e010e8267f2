-- ===== src/Dhan/Providers.antt =====
-- nautilus_india/dhan/providers.py: the universe of instruments, loaded from the rows of the scrip
-- master. How the download ends and the date of today are arguments. The base class's `add` keeps an
-- instrument under its id.
pub mod Values
pub mod Loaded
use mathlib.Core.Option.{map as map_option}
use nautilus_trader_india.Prelude.{
  ℕ, zero, suc, ◌+◌, ◌*◌, ◌/◌, ◌%◌, ◌^◌, ℤ, pos, negsuc, String, Bool, true, false, not, ◌&&◌, ◌||◌,
  Option, none, some, List, [], ◌∷◌, Text, codes, text_eq, any, ltb, leb, ◌==◌, if◌then◌else◌,
}
use nautilus_trader_india.Nautilus.{Decimal}
use nautilus_trader_india.Core.Date.{Date, ordinal}
use nautilus_trader_india.Core.Lots.{Spec}
use nautilus_trader_india.Core.Symbology.{
  InstrumentClass, equity, index, future, option, Exchange, nse, bse, mcx,
}
use nautilus_trader_india.Core.Calendar.{Zone}
use nautilus_trader_india.Core.Instruments.{
  InstrumentId, Derivative, Minted, is_class, option_contract, futures_contract, equity_instrument,
  index_instrument,
}
use nautilus_trader_india.Dhan.OrderUpdates.{is_pair}
use nautilus_trader_india.Dhan.Providers.Values.{segment_code_for, price_precision_for}
use nautilus_trader_india.Dhan.Parsing.{Readers, Row, ScripRow, parse_row}

-- `filters`; an empty one filters nothing.
pub record Filters : Type 0 where
  pub underlyings : List Text
  pub instrument_classes : List InstrumentClass

abbrev pub admits : {A : Type 0} → (A → Bool) → List A → Bool
admits test [] = true
admits test (a ∷ rest) = any test (a ∷ rest)

-- `_matches`
unfoldable pub matches : Filters → ScripRow → Bool
matches filters parsed =
    admits (text_eq parsed.key.underlying) filters.underlyings
    && admits (is_class parsed.key.instrument_class) filters.instrument_classes

-- `parsed.expiry is not None and parsed.expiry < today`
unfoldable pub is_expired : Date → Option Date → Bool
is_expired today none = false
is_expired today (some expiry) = ltb (ordinal expiry) (ordinal today)

-- `exchange.value`
unfoldable pub exchange_name : Exchange → Text
exchange_name nse = codes "NSE"
exchange_name bse = codes "BSE"
exchange_name mcx = codes "MCX"

-- `_segment_code_for`
unfoldable pub code_of : ScripRow → Option ℤ
code_of parsed = segment_code_for (exchange_name parsed.exchange) parsed.segment

-- An instrument and its `info`.
pub record Listed : Type 0 where
  pub minted : Minted
  pub security_id : Text
  pub segment : Text
  pub segment_code : ℤ
  pub expiry : Option Date

abbrev pub unknown_segment_code : ℤ
unknown_segment_code = negsuc 0

-- `_with_master_values`: the tick and the lot of the row in place of the constructor's.
unfoldable pub with_master_values : Minted → ScripRow → Listed
with_master_values built parsed = record {
  minted = record built {
    price_precision = price_precision_for parsed.tick_size;
    price_increment = parsed.tick_size;
    derivative =
        map_option (λ (d : Derivative). record d { multiplier = parsed.lot_size }) built.derivative;
  };
  security_id = parsed.security_id;
  segment = parsed.segment;
  segment_code = elim (code_of parsed) [ none ↦ unknown_segment_code | some code ↦ code ];
  expiry = parsed.expiry;
}

-- What a load reads and does not change: the readers of a row, today, the filters, the zone and the
-- table of lots.
pub record Loading : Type 0 where
  pub readers : Readers
  pub today : Date
  pub filters : Filters
  pub zone : Zone
  pub specs : Text → Option Spec

-- The constructor of each class, given the lot of the row.
unfoldable pub constructed : Loading → InstrumentClass → ScripRow → Option Minted
constructed l option parsed =
    option_contract l.zone l.specs parsed.key parsed.exchange (some parsed.lot_size)
constructed l future parsed =
    futures_contract l.zone l.specs parsed.key parsed.exchange (some parsed.lot_size)
constructed l equity parsed = equity_instrument parsed.key.underlying parsed.exchange
constructed l index parsed = index_instrument parsed.key.underlying parsed.exchange

-- `_build`, where `none` is what the constructor raises.
unfoldable pub build : Loading → ScripRow → Option Listed
build l parsed =
    map_option (λ built. with_master_values built parsed)
      (constructed l parsed.key.instrument_class parsed)

-- The provider's three maps, the latest entry first.
pub record Provider : Type 0 where
  pub instruments : List (InstrumentId × Listed)
  pub security_ids : List (InstrumentId × Text)
  pub by_security : List ((Text × ℤ) × InstrumentId)

-- What `__init__` leaves: nothing is loaded.
unfoldable pub unloaded : Provider
unloaded = record { instruments = []; security_ids = []; by_security = [] }

abbrev pub same_exchange : Exchange → Exchange → Bool
same_exchange nse nse = true
same_exchange bse bse = true
same_exchange mcx mcx = true
same_exchange _ _ = false

unfoldable pub same_id : InstrumentId → InstrumentId → Bool
same_id (s, e) (t, f) = text_eq s t && same_exchange e f

unfoldable pub same_code : ℤ → ℤ → Bool
same_code (pos a) (pos b) = a == b
same_code (negsuc a) (negsuc b) = a == b
same_code _ _ = false

unfoldable pub same_security : Text × ℤ → Text × ℤ → Bool
same_security (s, c) (t, d) = text_eq s t && same_code c d

-- `map.get(key)`
unfoldable pub find_in : {K V : Type 0} → (K → K → Bool) → K → List (K × V) → Option V
find_in same k [] = none
find_in same k ((key, v) ∷ rest) = if same key k then some v else find_in same k rest

-- `security_id_for`, `none` where it raises `LookupError`, and `instrument_id_for`
unfoldable pub security_id_for : Provider → InstrumentId → Option Text
security_id_for p id = find_in same_id id p.security_ids

unfoldable pub instrument_id_for : Provider → Text → ℤ → Option InstrumentId
instrument_id_for p security_id segment = find_in same_security (security_id, segment) p.by_security

-- The three maps after a row that is built.
unfoldable pub added : Provider → ScripRow → Listed → Provider
added p parsed listed = record {
  instruments = (listed.minted.id, listed) ∷ p.instruments;
  security_ids = (listed.minted.id, parsed.security_id) ∷ p.security_ids;
  by_security = elim (code_of parsed) [
    | none ↦ p.by_security
    | some code ↦ ((parsed.security_id, code), listed.minted.id) ∷ p.by_security
  ];
}

-- One pass of the loop of `load_all_async`, on a row that was parsed.
unfoldable pub load_parsed : Loading → Provider → ScripRow → Option Provider
load_parsed l p parsed =
    if is_expired l.today parsed.expiry || not (matches l.filters parsed)
    then some p
    else map_option (added p parsed) (build l parsed)

unfoldable pub load_row : Loading → Provider → Row → Option Provider
load_row l p row = elim (parse_row l.readers row) [
  | none ↦ some p
  | some parsed ↦ load_parsed l p parsed
]

-- The loop of `load_all_async`: the maps as they are left, and whether it came to its end. A row that
-- raises ends it, and what was loaded before stays.
unfoldable pub load_all : Loading → Provider → List Row → Provider × Bool
load_all l p [] = (p, true)
load_all l p (row ∷ rows) = elim (load_row l p row) [
  | none ↦ (p, false)
  | some q ↦ load_all l q rows
]

-- How the download ends: in an error of the connection, or in an answer with its status and text.
pub data Answer : Type 0 where
  no_answer : Answer
  answered : ℕ → Text → Answer

-- `_download`, `none` where it raises `RuntimeError`.
unfoldable pub download : Answer → Option Text
download no_answer = none
download (answered status text) = if status == 200 then some text else none

-- `load_all_async`, where `csv.DictReader` is an argument.
unfoldable pub load_all_async : (Text → List Row) → Loading → Provider → Answer → Provider × Bool
unfolding download
load_all_async rows_in l p answer = elim (download answer) [
  | none ↦ (p, false)
  | some text ↦ load_all l p (rows_in text)
]
