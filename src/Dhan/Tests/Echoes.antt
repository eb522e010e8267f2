-- ===== src/Dhan/Tests/Echoes.antt =====
-- An order for one lot that is sent, and the row of the order book that echoes it.
use nautilus_trader_india.Prelude.{◌≡◌, refl, false, [], ◌∷◌, inl, arith}
use nautilus_trader_india.Dhan.Json.{Json, Fields, get, str_or}
use nautilus_trader_india.Dhan.Exc.{ok}
use nautilus_trader_india.Dhan.Constants.{segment_names, is_member}
use nautilus_trader_india.Dhan.Orders.{
  units_for, lots_for, correlation_id, client_order_id_for, PlacePayload, place_payload,
  order_type_for, side_name, segment_name, checked, validity_for,
}
use nautilus_trader_india.Dhan.Orders.Correlation.{matches_safe, is_safe, is_safe_rest}
use nautilus_trader_india.Dhan.Orders.Payload.{needs_price, needs_trigger}
use nautilus_trader_india.Dhan.Orders.Times.{ist_to_ns}
use nautilus_trader_india.Dhan.Orders.Reports.{
  OrderStatusReport, order_status_report, status_of, order_status, first_time, side_of, reason_in,
  is_dead, str_of_get,
}
use nautilus_trader_india.Dhan.Orders.Reports.Rows.{
  required, decimal_or_none, price_or_none, is_text, value_of,
}
use nautilus_trader_india.Dhan.Orders.Echo.{Echoes, IsOf, order_status_report-IsOf}
use nautilus_trader_india.Dhan.Tests.Fixtures.{lib-IsDigest, entry, instrument, reading, whole}

abbrev row : Fields
row = Fields.field "orderId" (Json.text "7") (
    Fields.field "correlationId" (Json.text "O-1") (
      Fields.field "transactionType" (Json.text "BUY") (
        Fields.field "orderType" (Json.text "LIMIT") (
          Fields.field "validity" (Json.text "DAY") (
            Fields.field "orderStatus" (Json.text "PENDING")
              (Fields.field "quantity" (whole 65) Fields.end))))))

placed :
    (p : PlacePayload) × (place_payload reading.lib entry instrument "35001" "1000" "INTRADAY" false
        "OPEN"
      ≡ ok p)
    × Echoes row p
unfolding place_payload order_type_for needs_price needs_trigger side_name segment_name
    segment_names checked is_member validity_for units_for correlation_id matches_safe is_safe
    is_safe_rest get
placed = (
  _,
  refl,
  record { correlation = refl; side = refl; order_type = refl; validity = refl; quantity = refl },
)

reported :
    (report : OrderStatusReport) × (order_status_report reading row instrument ("O-1" ∷ [])
      ≡ ok report)
unfolding order_status_report required get status_of order_status str_or decimal_or_none lots_for
    price_or_none ist_to_ns first_time client_order_id_for side_of is_text value_of reason_in
    correlation_id is_dead matches_safe str_of_get is_safe is_safe_rest
reported = (_, refl)

order_status_report-IsOf_example : IsOf entry reported.0
order_status_report-IsOf_example =
    order_status_report-IsOf reading entry instrument 1 "35001" "1000" "INTRADAY" false "OPEN"
      placed.0 row ("O-1" ∷ []) reported.0 lib-IsDigest refl refl (λ h. omega (arith, h)) (tt, tt)
      (inl refl) placed.1 placed.2 reported.1
