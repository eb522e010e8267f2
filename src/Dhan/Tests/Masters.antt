-- ===== src/Dhan/Tests/Masters.antt =====
-- A row of the scrip master, and a provider that has loaded it.
use nautilus_trader_india.Prelude.{
  true, ◌≡◌, refl, pos, some, none, [], ◌∷◌, codes, text_eq, str_eq, if◌then◌else◌, to_upper,
}
use nautilus_trader_india.Nautilus.{Decimal}
use nautilus_trader_india.Core.Symbology.{
  equity, nse, upper, is_right, symbol_for, to_instrument_id, to_symbol,
}
use nautilus_trader_india.Core.Instruments.{Minted, equity_instrument, minted_plain}
use nautilus_trader_india.Dhan.Parsing.{
  Readers, Row, ScripRow, parse_row, class_named, cell, exchange_named, unless_empty, strip,
  strip_start, is_space, terms_of, lot_in, tick_in, tick_size_rupees, if_tradeable, is_positive,
  lot_for, tick_for, first_word, if_positive, is_among, is_zero, parse_expiry, parse_strike,
}
use nautilus_trader_india.Dhan.Parsing.Whole.{IsWhole, parse_row-IsWhole}
use nautilus_trader_india.Dhan.Providers.{
  Loading, Provider, Listed, instrument_id_for, find_in, load_all, load_all_async, answered,
  with_master_values, load_row, added, build, code_of, constructed, exchange_name, is_expired,
  load_parsed, matches,
}
use nautilus_trader_india.Dhan.Providers.Values.{
  segment_code_for, normal_places, places_of, price_precision_for,
}
use nautilus_trader_india.Dhan.Providers.Loaded.{IsConsistent, load_all_async-Leaves, Leaves}
use nautilus_trader_india.Dhan.Tests.Fixtures.{kolkata}

abbrev one_paisa : Decimal
one_paisa = record { coefficient = pos 1; places = 0 }

abbrev readers : Readers
readers = record {
  decimal = λ _. some one_paisa;
  float_int = λ _. some (pos 1);
  from_iso = λ _. none;
}

abbrev share : Row
share column =
    if str_eq column "INSTRUMENT"
    then some (codes "EQUITY")
    else if str_eq column "EXCH_ID"
    then some (codes "NSE")
    else if str_eq column "SECURITY_ID"
    then some (codes " 2885 ")
    else if str_eq column "UNDERLYING_SYMBOL"
    then some (codes "Reliance")
    else if str_eq column "SEGMENT"
    then some (codes "E")
    else if str_eq column "LOT_SIZE"
    then some (codes "1.0")
    else none

abbrev parsed : ScripRow
parsed = record {
  key = record {
    underlying = codes "RELIANCE";
    instrument_class = equity;
    expiry = none;
    strike = none;
    right = none;
  };
  exchange = nse;
  security_id = codes "2885";
  segment = codes "E";
  lot_size = pos 1;
  tick_size = record { coefficient = pos 1; places = 2 };
  expiry = none;
}

parse_row-IsWhole_example : IsWhole parsed
unfolding parse_row class_named text_eq cell exchange_named unless_empty strip strip_start is_space
    upper terms_of lot_in tick_in tick_size_rupees if_tradeable is_positive lot_for tick_for
    is_right first_word if_positive is_among is_zero parse_expiry parse_strike to_upper
parse_row-IsWhole_example = parse_row-IsWhole readers share parsed refl

abbrev loading : Loading
loading = record {
  readers = readers;
  today = record { year = 2026; month = 9; day = 8 };
  filters = record { underlyings = []; instrument_classes = [] };
  zone = kolkata;
  specs = λ _. none;
}

abbrev empty : Provider
empty = record { instruments = []; security_ids = []; by_security = [] }

empty-IsConsistent : IsConsistent loading.today empty
unfolding instrument_id_for find_in
empty-IsConsistent = record {
  routed = λ security_id segment id h. absurd (cc);
  named = tt;
  fresh = tt;
}

abbrev minted : Minted
minted = record {
  id = (codes "RELIANCE", nse);
  raw_symbol = codes "RELIANCE";
  price_precision = 2;
  price_increment = record { coefficient = pos 1; places = 2 };
  derivative = none;
}

abbrev listed : Listed
listed = record {
  minted = minted;
  security_id = codes "2885";
  segment = codes "E";
  segment_code = pos 1;
  expiry = none;
}

abbrev loaded : Provider
loaded = record {
  instruments = (minted.id, listed) ∷ [];
  security_ids = (minted.id, codes "2885") ∷ [];
  by_security = ((codes "2885", pos 1), minted.id) ∷ [];
}

load_all_async-Leaves_example :
    Leaves loading empty
      (answered 200 [])
      (load_all_async (λ _. share ∷ []) loading empty (answered 200 []))
load_all_async-Leaves_example =
    load_all_async-Leaves (λ _. share ∷ []) loading empty (answered 200 []) empty-IsConsistent

loads_share : load_all_async (λ _. share ∷ []) loading empty (answered 200 []) ≡ (loaded, true)
unfolding load_all_async load_all load_row parse_row class_named text_eq cell exchange_named
    unless_empty strip strip_start is_space upper terms_of lot_in tick_in tick_size_rupees
    if_tradeable is_positive equity_instrument minted_plain symbol_for to_instrument_id to_symbol
    lot_for tick_for added build code_of constructed exchange_name is_expired load_parsed matches
    normal_places places_of price_precision_for segment_code_for with_master_values
loads_share = refl
