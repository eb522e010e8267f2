-- ===== src/Dhan/Tests/Legs.antt =====
-- A super order with both of its legs, as its book lists it.
use nautilus_trader_india.Dhan.SuperOrders.{leg_venue_order_id}
use nautilus_trader_india.Core.Date.{days_before_month, days_in_month, is_date, is_leap, to_ordinal}
use nautilus_trader_india.Core.Calendar.{difference, local_seconds, timestamp_ns}
use nautilus_trader_india.Dhan.Orders.Times.{
  ist_to_ns, blanks, date_in, day_in, field_in, finished, instant_of, is_blank, literal, one_digit,
  skip_blanks, strptime, time_in, year_in,
}
use nautilus_trader_india.Dhan.Orders.Units.{lots_for, whole_lots}
use nautilus_trader_india.Dhan.Orders.Reports.Rows.{
  required, value_of, decimal_or_none, price_or_none, rows_of, decimal_of, is_text,
}
use nautilus_trader_india.Prelude.{
  refl, some, none, [], ◌∷◌, ◌↔◌, List, inl, inr, pos, is_digit, is_prefix,
}
use nautilus_trader_india.Nautilus.{buy, sell, accepted}
use nautilus_trader_india.Dhan.Json.{Json, Items, Fields, get, py_str, str_or, truthy}
use nautilus_trader_india.Dhan.Constants.{is_member}
use nautilus_trader_india.Dhan.Orders.Reports.{limit, order_status, first_time, side_of}
use nautilus_trader_india.Dhan.SuperOrders.Reports.{
  LegReport, legs_of, row_reports, report, status_named, leg_reports, id_of_entry, leg_quantity,
  text_or_none,
}
use nautilus_trader_india.Dhan.Orders.Correlation.Matching.{IsOneOf}
use nautilus_trader_india.Dhan.Execution.OrderList.{accept_legs, legs}
use nautilus_trader_india.Dhan.Execution.OrderList.Reported.{
  accepted_ids, venue_ids, accept_legs-reported,
}
use nautilus_trader_india.Dhan.Tests.Fixtures
use nautilus_trader_india.Dhan.Tests.Fixtures.{reading, whole, instrument, one_lot}

abbrev target : Fields
target = Fields.field "legName" (Json.text "TARGET_LEG") (
    Fields.field "transactionType" (Json.text "SELL")
      (Fields.field "totalQuatity" (whole 65) Fields.end))

abbrev stop_loss : Fields
stop_loss = Fields.field "legName" (Json.text "STOP_LOSS_LEG") (
    Fields.field "transactionType" (Json.text "SELL")
      (Fields.field "totalQuatity" (whole 65) Fields.end))

abbrev both_legs : Items
both_legs = Items.cons (Json.obj stop_loss) (Items.cons (Json.obj target) Items.nil)

abbrev bracket : Fields
bracket = Fields.field "orderId" (Json.text "7") (
    Fields.field "orderStatus" (Json.text "PENDING") (
      Fields.field "transactionType" (Json.text "BUY") (
        Fields.field "correlationId" (Json.text "O-1") (
          Fields.field "quantity" (whole 65)
            (Fields.field "legDetails" (Json.arr both_legs) Fields.end)))))

abbrev entry_report : LegReport
entry_report = record {
  instrument_id = "NIFTY";
  venue_order_id = "7";
  client_order_id = some "O-1";
  order_side = buy;
  order_type = limit;
  order_status = accepted;
  quantity = one_lot;
  filled_qty = record { coefficient = 0; places = 0 };
  price = none;
  avg_px = none;
  cancel_reason = none;
  ts_accepted = pos 0;
  ts_last = pos 0;
}

abbrev target_report : LegReport
target_report = record entry_report {
  venue_order_id = "7:TARGET_LEG";
  client_order_id = none;
  order_side = sell;
}

abbrev stop_report : LegReport
stop_report = record target_report { venue_order_id = "7:STOP_LOSS_LEG" }

abbrev reports : List LegReport
reports = entry_report ∷ stop_report ∷ target_report ∷ []

accept_legs-reported_example :
    IsOneOf "7:TARGET_LEG" (
      accepted_ids
        (accept_legs "7" (Fixtures.entry ∷ Fixtures.target ∷ Fixtures.stop_loss ∷ []) legs).0)
    ↔ IsOneOf "7:TARGET_LEG" (venue_ids reports)
unfolding row_reports required get py_str report status_named order_status str_or value_of
    decimal_or_none lots_for price_or_none ist_to_ns first_time legs_of rows_of leg_reports
    is_member difference local_seconds timestamp_ns days_before_month days_in_month is_date is_leap
    to_ordinal truthy decimal_of is_text side_of blanks date_in day_in field_in finished instant_of
    is_blank literal one_digit skip_blanks strptime time_in year_in whole_lots id_of_entry
    leg_quantity text_or_none leg_venue_order_id is_digit is_prefix
accept_legs-reported_example =
    accept_legs-reported reading instrument bracket "7" Fixtures.entry Fixtures.target
      Fixtures.stop_loss reports both_legs refl refl refl (inr (inl refl)) (inl refl) "7:TARGET_LEG"
