-- ===== src/Dhan/Execution/Reports.antt =====
-- The reports of nautilus_india/dhan/execution.py: `generate_order_status_report`,
-- `generate_order_status_reports`, `generate_fill_reports`, `generate_position_status_reports`,
-- `generate_mass_status`, `generate_super_order_reports`, `generate_forever_order_reports`, and the
-- fills of `_emit_fills_for`.
pub mod Answered
use Prim.Native.String.{◌++◌ as str_append}
use nautilus_trader_india.Prelude.{
  ℤ, String, Bool, true, false, Option, none, some, List, [], ◌∷◌, ◌++◌, map, codes, lower,
  is_infix, if◌then◌else◌,
}
use nautilus_trader_india.Nautilus.{Decimal, Quantity, Order, OrderSide, OrderType}
use nautilus_trader_india.Dhan.Json.{Json}
use nautilus_trader_india.Dhan.Exc.{
  Exc, Failure, dhan_api_error, is_dhan_error, Result, ok, err, ◌>>=◌,
}
use nautilus_trader_india.Dhan.Http
use nautilus_trader_india.Dhan.Constants.{
  orders_path, trades_path, positions_path, super_orders_path, forever_orders_path,
}
use nautilus_trader_india.Dhan.Orders.Reports.{
  OrderStatusReport, FillReport, PositionStatusReport, order_status_report, fill_report,
  position_status_report,
}
use nautilus_trader_india.Dhan.SuperOrders
use nautilus_trader_india.Dhan.SuperOrders.Reports.{LegReport}
use nautilus_trader_india.Dhan.ForeverOrders
use nautilus_trader_india.Dhan.ForeverOrders.Reports.{RestingReport}
use nautilus_trader_india.Dhan.Execution.Lookup.{lookup_path}
use nautilus_trader_india.Dhan.Execution.Books.{
  Books, instrument_for, reports_from, reports_in, as_rows,
}

-- `self._http.get(path)`
unfoldable pub asked : Books → String → Result Json
asked books path = Http.read books.reading.py path (books.answers path)

-- `_is_no_such_order`
unfoldable pub is_no_such_order : Failure → Bool
is_no_such_order f = is_infix (codes "incorrect request for order") (lower (codes f.reason))

-- `[command.client_order_id] if command.client_order_id else []`
abbrev pub extra_ids : Option String → List String
extra_ids none = []
extra_ids (some client_order_id) = client_order_id ∷ []

-- `reports[0] if reports else None`
abbrev pub first_of : {A : Type 0} → List A → Option A
first_of [] = none
first_of (report ∷ reports) = some report

-- What follows the read of one order; only a refusal that says "no such order" is an answer.
unfoldable pub single_report : Books → List String → Result Json → Result (Option OrderStatusReport)
single_report books extra (err (dhan_api_error f)) =
    if is_no_such_order f then ok none else err (dhan_api_error f)
single_report books extra (err e) = err e
single_report books extra (ok body) = do
  reports ←
      reports_in books
        (λ row instrument.
          order_status_report books.reading row instrument (extra ++ books.client_order_ids))
        (as_rows body)
  ok (first_of reports)

-- `generate_order_status_report`
unfoldable pub generate_order_status_report :
    Books → Option String → Option String → Result (Option OrderStatusReport)
generate_order_status_report books venue_order_id client_order_id =
    elim (lookup_path venue_order_id client_order_id) [
      | none ↦ ok none
      | some path ↦ single_report books (extra_ids client_order_id) (asked books path)
    ]

-- `generate_order_status_reports`
unfoldable pub generate_order_status_reports : Books → Result (List OrderStatusReport)
generate_order_status_reports books = do
  body ← asked books orders_path
  reports_from books
      (λ row instrument. order_status_report books.reading row instrument books.client_order_ids)
      body

-- The book of trades, or those of one order.
unfoldable pub fills_path : Option String → String
fills_path none = trades_path
fills_path (some venue_order_id) = str_append trades_path (str_append "/" venue_order_id)

-- `generate_fill_reports`
unfoldable pub generate_fill_reports : Books → Option String → Result (List FillReport)
generate_fill_reports books venue_order_id = do
  body ← asked books (fills_path venue_order_id)
  reports_in books (fill_report books.reading) (as_rows body)

-- `generate_position_status_reports`
unfoldable pub generate_position_status_reports : Books → Result (List PositionStatusReport)
generate_position_status_reports books = do
  body ← asked books positions_path
  reports_from books (position_status_report books.reading) body

pub record MassStatus : Type 0 where
  pub order_reports : List OrderStatusReport
  pub fill_reports : List FillReport
  pub position_reports : List PositionStatusReport

-- `generate_mass_status`: the reports that are added to the status, book by book.
unfoldable pub generate_mass_status : Books → Result MassStatus
generate_mass_status books = do
  order_reports ← generate_order_status_reports books
  trades ← asked books trades_path
  fill_reports ← reports_from books (fill_report books.reading) trades
  position_reports ← generate_position_status_reports books
  ok (record {
    order_reports = order_reports;
    fill_reports = fill_reports;
    position_reports = position_reports;
  })

-- `generate_super_order_reports`
unfoldable pub generate_super_order_reports : Books → Result (List LegReport)
generate_super_order_reports books = do
  body ← asked books super_orders_path
  SuperOrders.Reports.reports_from books.reading (instrument_for books) body

-- `generate_forever_order_reports`
unfoldable pub generate_forever_order_reports : Books → Result (List RestingReport)
generate_forever_order_reports books = do
  body ← asked books forever_orders_path
  ForeverOrders.Reports.reports_from books.reading (instrument_for books) body

-- One `generate_order_filled` call, without the instrument's currency, and without the commission
-- and the liquidity side, which are constants.
pub record Filled : Type 0 where
  pub strategy_id : String
  pub instrument_id : String
  pub client_order_id : String
  pub venue_order_id : String
  pub trade_id : String
  pub order_side : OrderSide
  pub order_type : OrderType
  pub last_qty : Quantity
  pub last_px : Decimal
  pub ts_event : ℤ

unfoldable pub filled_by : Order → FillReport → Filled
filled_by order report = record {
  strategy_id = order.strategy_id;
  instrument_id = order.instrument_id;
  client_order_id = order.client_order_id;
  venue_order_id = report.venue_order_id;
  trade_id = report.trade_id;
  order_side = report.order_side;
  order_type = order.order_type;
  last_qty = report.last_qty;
  last_px = report.last_px;
  ts_event = report.ts_event;
}

-- `except DhanError`: no fill is emitted where the trades could not be read.
unfoldable pub fills_in : Books → Order → Result Json → Result (List Filled)
fills_in books order (err e) = if is_dhan_error e then ok [] else err e
fills_in books order (ok body) = do
  reports ← reports_in books (fill_report books.reading) (as_rows body)
  ok (map (filled_by order) reports)

-- `_emit_fills_for`: the fills that are emitted, in order. The list of reports is complete before
-- the first of them.
unfoldable pub emit_fills_for : Books → Order → String → Result (List Filled)
emit_fills_for books order venue_order_id = elim (books.cached order.instrument_id) [
  | none ↦ ok []
  | some instrument ↦ fills_in books order (asked books (fills_path (some venue_order_id)))
]
