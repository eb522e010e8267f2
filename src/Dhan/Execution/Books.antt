-- ===== src/Dhan/Execution/Books.antt =====
-- The rows of an answer of nautilus_india/dhan/execution.py: `_instrument_for` and `_reports_from`,
-- with `instrument_id_for` of nautilus_india/dhan/providers.py. Log lines and report ids are left
-- out.
pub mod Mapped
use nautilus_trader_india.Prelude.{
  ℤ, String, Option, none, some, List, [], ◌∷◌, ◌++◌, or_else, if◌then◌else◌,
}
use nautilus_trader_india.Nautilus.{Instrument}
use nautilus_trader_india.Dhan.Json
use nautilus_trader_india.Dhan.Json.{Json, Items, Fields, str_or}
use nautilus_trader_india.Dhan.Exc.{Result, ok, err, attribute_error, ◌>>=◌}
use nautilus_trader_india.Dhan.Http.{Response}
use nautilus_trader_india.Dhan.Constants.{segment_codes}
use nautilus_trader_india.Dhan.Orders.Reports.{str_of_get}
use nautilus_trader_india.Dhan.Orders.Reports.Rows.{Reading, rows_of}

-- What a report reads and does not change: the provider's `_by_security` and `find`, the
-- instruments and the client order ids of the cache, and how the venue answers a path.
pub record Books : Type 0 where
  pub reading : Reading
  pub by_security : String → ℤ → Option String
  pub cached : String → Option Instrument
  pub find : String → Option Instrument
  pub client_order_ids : List String
  pub answers : String → Response

-- `instrument_id_for`
unfoldable pub instrument_id_for : Books → String → ℤ → Option String
instrument_id_for books security_id segment = books.by_security security_id segment

unfoldable pub instrument_named : Books → Option String → Option Instrument
instrument_named books none = none
instrument_named books (some id) = or_else (books.cached id) (books.find id)

unfoldable pub instrument_on : Books → String → Option ℤ → Option Instrument
unfolding instrument_id_for instrument_named
instrument_on books security_id none = none
instrument_on books security_id (some code) =
    instrument_named books (instrument_id_for books security_id code)

-- `_instrument_for`
unfoldable pub instrument_for : Books → Fields → Option Instrument
unfolding instrument_on
instrument_for books row =
    instrument_on books (str_of_get books.reading.py (Json.get "securityId" row))
      (segment_codes (str_or books.reading.py (Json.get "exchangeSegment" row) ""))

-- One pass of the loop; a row that is no object has no `get`.
unfoldable pub row_report :
    {A : Type 0} → Books → (Fields → Instrument → Result A) → Json → Result (Option A)
row_report books build (Json.obj row) = elim (instrument_for books row) [
  | none ↦ ok none
  | some instrument ↦ do report ← build row instrument; ok (some report)
]
row_report books build _ = err attribute_error

abbrev pub found_then : {A : Type 0} → Option A → List A → List A
found_then none reports = reports
found_then (some report) reports = report ∷ reports

-- The loop of `_reports_from`.
unfoldable pub reports_in :
    {A : Type 0} → Books → (Fields → Instrument → Result A) → Items → Result (List A)
reports_in books build Items.nil = ok []
reports_in books build (Items.cons row rows) = do
  found ← row_report books build row
  reports ← reports_in books build rows
  ok (found_then found reports)

-- `_reports_from`
unfoldable pub reports_from :
    {A : Type 0} → Books → (Fields → Instrument → Result A) → Json → Result (List A)
reports_from books build body = do rows ← rows_of body; reports_in books build rows

-- `body if isinstance(body, list) else [body]`
unfoldable pub as_rows : Json → Items
as_rows (Json.arr rows) = rows
as_rows body = Items.cons body Items.nil
