-- ===== src/Core/Instruments.antt =====
-- nautilus_india/core/instruments.py: the instruments that are minted from contracts. `none` stands
-- for what is raised: a contract of another class, one without a symbol, or one without a lot.
use nautilus_trader_india.Prelude.{
  ℕ, ℤ, pos, Bool, true, false, Option, none, some, Text, text_eq, if◌then◌else◌,
}
use nautilus_trader_india.Nautilus.{Decimal}
use nautilus_trader_india.Core.Date.{Date}
use nautilus_trader_india.Core.Lots.{Spec, Provenance, lookup_in}
use nautilus_trader_india.Core.Symbology.{
  InstrumentClass, equity, index, future, option, ContractKey, Exchange, call, to_symbol,
  to_instrument_id, strike_to_paise,
}
use nautilus_trader_india.Core.Calendar.{Zone, timestamp_ns, clock}

abbrev pub InstrumentId : Type 0
InstrumentId = Text × Exchange

pub data OptionKind : Type 0 where
  call_option put_option : OptionKind

pub data LotSource : Type 0 where
  supplied : LotSource
  looked_up : Provenance → LotSource

-- What an option and a future have and a share and an index have not.
pub record Derivative : Type 0 where
  pub underlying : Text
  pub multiplier : ℤ
  pub lot_source : LotSource
  pub option_kind : Option OptionKind
  pub strike_price : Option Decimal
  pub activation_ns : ℤ
  pub expiration_ns : ℤ

pub record Minted : Type 0 where
  pub id : InstrumentId
  pub raw_symbol : Text
  pub price_precision : ℕ
  pub price_increment : Decimal
  pub derivative : Option Derivative

-- TICK, and CASH_TICK and INDEX_TICK
abbrev pub tick : Decimal
tick = record { coefficient = pos 5; places = 2 }

abbrev pub cash_tick : Decimal
cash_tick = record { coefficient = pos 1; places = 2 }

infixl 5 ◌>>=◌
abbrev pub ◌>>=◌ : {A B : Type 0} → Option A → (A → Option B) → Option B
none >>= rest = none
some a >>= rest = rest a

-- _KIND
unfoldable pub kind_of : Text → OptionKind
kind_of right = if text_eq right call then call_option else put_option

-- `_window`
unfoldable pub window : Zone → Date → ℤ × ℤ
window zone expiry = (timestamp_ns zone expiry (clock 9 15), timestamp_ns zone expiry (clock 15 30))

-- `_lot_info`
unfoldable pub lot_info : (Text → Option Spec) → Text → Date → Option ℤ → Option (ℤ × LotSource)
lot_info specs underlying expiry (some lot) = some (lot, supplied)
lot_info specs underlying expiry none = do
  found ← lookup_in (specs underlying) expiry
  some (pos found.lot, looked_up found.provenance)

abbrev pub is_class : InstrumentClass → InstrumentClass → Bool
is_class option option = true
is_class future future = true
is_class equity equity = true
is_class index index = true
is_class _ _ = false

abbrev pub when : Bool → Option (Unit {0})
when true = some tt
when false = none

-- `option_contract`. A strike that has a symbol is a number of paise, and prints to two places as
-- that number.
unfoldable pub option_contract :
    Zone → (Text → Option Spec) → ContractKey → Exchange → Option ℤ → Option Minted
option_contract zone specs key exchange lot_size = do
  done ← when (is_class key.instrument_class option)
  expiry ← key.expiry
  (lot, source) ← lot_info specs key.underlying expiry lot_size
  id ← to_instrument_id key exchange
  symbol ← to_symbol key
  right ← key.right
  strike ← key.strike
  paise ← strike_to_paise strike
  some (record {
    id = id;
    raw_symbol = symbol;
    price_precision = 2;
    price_increment = tick;
    derivative = some (record {
      underlying = key.underlying;
      multiplier = lot;
      lot_source = source;
      option_kind = some (kind_of right);
      strike_price = some (record { coefficient = pos paise; places = 2 });
      activation_ns = (window zone expiry).0;
      expiration_ns = (window zone expiry).1;
    });
  })

-- `futures_contract`
unfoldable pub futures_contract :
    Zone → (Text → Option Spec) → ContractKey → Exchange → Option ℤ → Option Minted
futures_contract zone specs key exchange lot_size = do
  done ← when (is_class key.instrument_class future)
  expiry ← key.expiry
  (lot, source) ← lot_info specs key.underlying expiry lot_size
  id ← to_instrument_id key exchange
  symbol ← to_symbol key
  some (record {
    id = id;
    raw_symbol = symbol;
    price_precision = 2;
    price_increment = tick;
    derivative = some (record {
      underlying = key.underlying;
      multiplier = lot;
      lot_source = source;
      option_kind = none;
      strike_price = none;
      activation_ns = (window zone expiry).0;
      expiration_ns = (window zone expiry).1;
    });
  })

-- A key without terms.
abbrev pub plain_key : InstrumentClass → Text → ContractKey
plain_key c underlying = record {
  underlying = underlying;
  instrument_class = c;
  expiry = none;
  strike = none;
  right = none;
}

unfoldable pub minted_plain : ContractKey → Exchange → Option Minted
minted_plain key exchange = do
  id ← to_instrument_id key exchange
  symbol ← to_symbol key
  some (record {
    id = id;
    raw_symbol = symbol;
    price_precision = 2;
    price_increment = cash_tick;
    derivative = none;
  })

-- `equity`
unfoldable pub equity_instrument : Text → Exchange → Option Minted
equity_instrument underlying exchange = minted_plain (plain_key equity underlying) exchange

-- `index_instrument`
unfoldable pub index_instrument : Text → Exchange → Option Minted
index_instrument underlying exchange = minted_plain (plain_key index underlying) exchange
