-- ===== src/Dhan/Tests/Reports.antt =====
-- Rows of the order and position books of one account, and their reports.
use nautilus_trader_india.Dhan.Orders.Correlation.{
  client_order_id_for, correlation_id, matches_safe, is_safe, is_safe_rest,
}
use nautilus_trader_india.Dhan.Orders.Times.{ist_to_ns}
use nautilus_trader_india.Dhan.Orders.Reports.Rows.{
  required, decimal_or_none, price_or_none, is_text, value_of,
}
use nautilus_trader_india.Prelude.{◌≡◌, ◌↔◌, refl, pos, false, some, none, [], ◌∷◌}
use nautilus_trader_india.Nautilus.{buy, rejected}
use nautilus_trader_india.Dhan.Json.{Json, Items, Fields, Number, get, str_or}
use nautilus_trader_india.Dhan.Exc.{ok}
use nautilus_trader_india.Dhan.Orders.Units.{lots_for}
use nautilus_trader_india.Dhan.Orders.Reports.{
  OrderStatusReport, PositionStatusReport, limit, day, default, long, order_status_report,
  position_status_report, status_of, order_status, first_time, side_of, reason_in, is_dead,
  str_of_get, side_named, position_side, is_positive, is_flat,
}
use nautilus_trader_india.Dhan.Orders.Reports.Laws.{Reports, order_status_report-Reports}
use nautilus_trader_india.Dhan.Orders.Reports.Positions.{Holds, position_status_report-Holds}
use nautilus_trader_india.Dhan.Execution.Books.{reports_in}
use nautilus_trader_india.Dhan.Execution.Books.Mapped.{Mapped, reports_in_iff}
use nautilus_trader_india.Dhan.Execution.Lookup.{lookup_path}
use nautilus_trader_india.Dhan.Execution.Reports.{
  MassStatus, asked, extra_ids, generate_mass_status, generate_order_status_report,
}
use nautilus_trader_india.Dhan.Execution.Reports.Answered.{
  AreAnswered, IsAbsent, Looked, order_builder, generate_mass_status_iff,
  generate_order_status_report-IsAbsent_iff,
}
use nautilus_trader_india.Dhan.Tests.Fixtures.{
  reading, whole, order_row, books, instrument, one_lot, rupees,
}

abbrev report : OrderStatusReport
report = record {
  instrument_id = "NIFTY";
  venue_order_id = "7";
  client_order_id = some "O-1";
  order_side = buy;
  order_type = limit;
  time_in_force = day;
  order_status = rejected;
  quantity = one_lot;
  filled_qty = record { coefficient = 0; places = 0 };
  price = none;
  trigger_price = rupees;
  trigger_type = default;
  avg_px = none;
  cancel_reason = some "margin";
  ts_accepted = pos 0;
  ts_last = pos 0;
}

order_status_report-Reports_example : Reports reading order_row instrument ("O-1" ∷ []) report
unfolding order_status_report required get status_of order_status str_or decimal_or_none lots_for
    price_or_none ist_to_ns first_time client_order_id_for side_of is_text value_of reason_in
    correlation_id is_dead matches_safe str_of_get is_safe is_safe_rest
order_status_report-Reports_example =
    order_status_report-Reports reading order_row instrument ("O-1" ∷ []) report refl

-- Long one lot.
abbrev net : Number
net = record { negative = false; coefficient = 65; places = 0 }

abbrev position_row : Fields
position_row =
    Fields.field "positionType" (Json.text "LONG")
      (Fields.field "netQty" (Json.num net) (Fields.field "buyAvg" (whole 150) Fields.end))

abbrev position : PositionStatusReport
position = record {
  instrument_id = "NIFTY";
  position_side = long;
  quantity = one_lot;
  avg_px_open = some (record { negative = false; coefficient = 150; places = 0 });
  ts_last = pos 0;
}

position_status_report-Holds_example : Holds reading position_row instrument net position
unfolding position_status_report get side_named position_side str_or decimal_or_none lots_for
    is_positive ist_to_ns is_flat
position_status_report-Holds_example =
    position_status_report-Holds reading position_row instrument net position refl refl

abbrev order_rows : Items
order_rows = Items.cons (Json.obj order_row) Items.nil

reports_in_iff_example :
    (reports_in books (order_builder books) order_rows ≡ ok (report ∷ []))
    ↔ Mapped books (order_builder books) order_rows (report ∷ [])
reports_in_iff_example = reports_in_iff books (order_builder books) order_rows (report ∷ [])

abbrev status : MassStatus
status = record { order_reports = report ∷ []; fill_reports = []; position_reports = [] }

generate_mass_status_iff_example :
    (generate_mass_status books ≡ ok status) ↔ AreAnswered books status
generate_mass_status_iff_example = generate_mass_status_iff books status

generate_order_status_report-IsAbsent_iff_example :
    ((generate_order_status_report books (some "7") none ≡ ok none)
      ↔ IsAbsent books (extra_ids none) (asked books "/v2/orders/7"))
    × Looked books
        (extra_ids none)
        (asked books "/v2/orders/7")
        (generate_order_status_report books (some "7") none)
unfolding lookup_path
generate_order_status_report-IsAbsent_iff_example =
    generate_order_status_report-IsAbsent_iff books (some "7") none "/v2/orders/7" refl
