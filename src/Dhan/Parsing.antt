-- ===== src/Dhan/Parsing.antt =====
-- nautilus_india/dhan/parsing.py: one row of the scrip master. A row is a function from a column to
-- its text, `none` where it has none. Texts that spell an infinity or a NaN are left out.
pub mod Whole
use mathlib.Core.List.{reverse}
use nautilus_trader_india.Prelude.{
  ℕ, ◌+◌, ℤ, pos, negsuc, String, Bool, true, false, not, ◌&&◌, ◌||◌, Option, none, some, List, [],
  ◌∷◌, Text, codes, text_eq, leb, str_eq, ◌==◌, any, if◌then◌else◌,
}
use nautilus_trader_india.Nautilus.{Decimal}
use nautilus_trader_india.Core.Date.{Date}
use nautilus_trader_india.Core.Symbology.{
  InstrumentClass, equity, index, future, option, ContractKey, Exchange, nse, bse, mcx, is_right,
  upper,
}

-- The readers of Python that a row goes through, `none` where they raise what is caught:
-- `Decimal(text)`, `int(float(text))` and `date.fromisoformat(text)`.
pub record Readers : Type 0 where
  pub decimal : Text → Option Decimal
  pub float_int : Text → Option ℤ
  pub from_iso : Text → Option Date

abbrev pub Row : Type 0
Row = String → Option Text

pub record ScripRow : Type 0 where
  pub key : ContractKey
  pub exchange : Exchange
  pub security_id : Text
  pub segment : Text
  pub lot_size : ℤ
  pub tick_size : Decimal
  pub expiry : Option Date

-- `text in words`
unfoldable pub is_among : Text → List String → Bool
is_among t words = any (λ word. text_eq t (codes word)) words

-- INSTRUMENT_CLASS
unfoldable pub class_named : Text → Option InstrumentClass
unfolding is_among
class_named t =
    if is_among t ("EQUITY" ∷ [])
    then some equity
    else if is_among t ("INDEX" ∷ [])
    then some index
    else if is_among t ("FUTIDX" ∷ "FUTSTK" ∷ "FUTCUR" ∷ "FUTCOM" ∷ [])
    then some future
    else if is_among t ("OPTIDX" ∷ "OPTSTK" ∷ "OPTCUR" ∷ "OPTFUT" ∷ [])
    then some option
    else none

-- EXCHANGE_BY_ID
unfoldable pub exchange_named : Text → Option Exchange
exchange_named t =
    if text_eq t (codes "NSE")
    then some nse
    else if text_eq t (codes "BSE")
    then some bse
    else if text_eq t (codes "MCX")
    then some mcx
    else none

-- `row.get(column) or ""`
unfoldable pub cell : Row → String → Text
cell row column = elim (row column) [ none ↦ [] | some t ↦ t ]

-- `first or second`
abbrev pub text_or : Text → Text → Text
text_or [] second = second
text_or (c ∷ t) second = c ∷ t

-- A blank of `strip` and `split`, up to U+00A0.
unfoldable pub is_space : ℕ → Bool
is_space c = (leb 9 c && leb c 13) || ((leb 28 c && leb c 32) || ((c == 133) || (c == 160)))

unfoldable pub strip_start : Text → Text
strip_start [] = []
strip_start (c ∷ t) = let rest = strip_start t in if is_space c then rest else c ∷ t

-- `text.strip()`
unfoldable pub strip : Text → Text
strip t = reverse (strip_start (reverse (strip_start t)))

-- `value.split()[0]` of a text that starts with no blank.
unfoldable pub first_word : Text → Text
first_word [] = []
first_word (c ∷ t) = let rest = first_word t in if is_space c then [] else c ∷ rest

-- `tick_size_rupees`
unfoldable pub tick_size_rupees : Readers → Text → Option Decimal
tick_size_rupees readers raw = elim (readers.decimal raw) [
  | none ↦ none
  | some paise ↦ some (record { coefficient = paise.coefficient; places = paise.places + 2 })
]

-- `parse_expiry`
unfoldable pub parse_expiry : Readers → Text → Option Date
parse_expiry readers raw =
    if is_among (strip raw) ("" ∷ "NA" ∷ "0001-01-01" ∷ [])
    then none
    else readers.from_iso (first_word (strip raw))

unfoldable pub is_positive : ℤ → Bool
is_positive (pos n) = not (n == 0)
is_positive (negsuc n) = false

unfoldable pub if_positive : Option Decimal → Option Decimal
if_positive none = none
if_positive (some d) = if is_positive d.coefficient then some d else none

-- `parse_strike`
unfoldable pub parse_strike : Readers → Text → Option Decimal
parse_strike readers raw =
    if is_among (strip raw) ("" ∷ "NA" ∷ "-0.01000" ∷ "0.00000" ∷ [])
    then none
    else if_positive (readers.decimal (strip raw))

-- `expiry`, `strike` and `right` of the key, by the class.
pub record Terms : Type 0 where
  pub expiry : Option Date
  pub strike : Option Decimal
  pub right : Option Text

unfoldable pub terms_of : InstrumentClass → Option Date → Option Decimal → Text → Option Terms
terms_of option (some t) (some s) right =
    if is_right right
    then some (record { expiry = some t; strike = some s; right = some right })
    else none
terms_of option none strike right = none
terms_of option (some t) none right = none
terms_of future (some t) strike right =
    some (record { expiry = some t; strike = none; right = none })
terms_of future none strike right = none
terms_of equity expiry strike right = some (record { expiry = none; strike = none; right = none })
terms_of index expiry strike right = some (record { expiry = none; strike = none; right = none })

-- `int(float(row.get("LOT_SIZE") or 0))` and `tick_size_rupees(row.get("TICK_SIZE") or "0")`
unfoldable pub lot_in : Readers → Text → Option ℤ
lot_in readers [] = some (pos 0)
lot_in readers (c ∷ t) = readers.float_int (c ∷ t)

unfoldable pub tick_in : Readers → Text → Option Decimal
tick_in readers t = tick_size_rupees readers (text_or t (codes "0"))

unfoldable pub is_zero : ℤ → Bool
is_zero (pos n) = n == 0
is_zero (negsuc n) = false

-- What an index without a lot or a tick stands for.
unfoldable pub lot_for : InstrumentClass → ℤ → ℤ
lot_for index lot = if is_zero lot then pos 1 else lot
lot_for _ lot = lot

unfoldable pub tick_for : InstrumentClass → Decimal → Decimal
tick_for index tick =
    if is_zero tick.coefficient then record { coefficient = pos 1; places = 2 } else tick
tick_for _ tick = tick

infixl 5 ◌>>=◌
abbrev pub ◌>>=◌ : {A B : Type 0} → Option A → (A → Option B) → Option B
none >>= rest = none
some a >>= rest = rest a

-- `if not text: return None`
unfoldable pub unless_empty : Text → Option Text
unless_empty [] = none
unless_empty (c ∷ t) = some (c ∷ t)

unfoldable pub if_tradeable : ℤ → Decimal → Option (Unit {0})
if_tradeable lot tick = if is_positive lot && is_positive tick.coefficient then some tt else none

-- `parse_row`
unfoldable pub parse_row : Readers → Row → Option ScripRow
parse_row readers row = do
  instrument_class ← class_named (cell row "INSTRUMENT")
  exchange ← exchange_named (cell row "EXCH_ID")
  security_id ← unless_empty (strip (cell row "SECURITY_ID"))
  underlying ←
      unless_empty (upper (strip (text_or (cell row "UNDERLYING_SYMBOL") (cell row "SYMBOL_NAME"))))
  terms ←
      terms_of instrument_class (parse_expiry readers (cell row "SM_EXPIRY_DATE"))
        (parse_strike readers (cell row "STRIKE_PRICE")) (upper (strip (cell row "OPTION_TYPE")))
  lot ← lot_in readers (cell row "LOT_SIZE")
  tick ← tick_in readers (cell row "TICK_SIZE")
  done ← if_tradeable (lot_for instrument_class lot) (tick_for instrument_class tick)
  some (record {
    key = record {
      underlying = underlying;
      instrument_class = instrument_class;
      expiry = terms.expiry;
      strike = terms.strike;
      right = terms.right;
    };
    exchange = exchange;
    security_id = security_id;
    segment = strip (cell row "SEGMENT");
    lot_size = lot_for instrument_class lot;
    tick_size = tick_for instrument_class tick;
    expiry = terms.expiry;
  })
