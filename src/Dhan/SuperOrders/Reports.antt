-- ===== src/Dhan/SuperOrders/Reports.antt =====
-- `reports_from` of nautilus_india/dhan/super_orders.py: one report for each leg.
pub mod Legs
use nautilus_trader_india.Prelude.{
  ℤ, String, Bool, true, false, ◌&&◌, Option, none, some, List, [], ◌∷◌, ◌++◌, str_eq,
  if◌then◌else◌,
}
use nautilus_trader_india.Nautilus.{Decimal, Quantity, OrderSide, OrderStatus, Instrument}
use nautilus_trader_india.Dhan.Json
use nautilus_trader_india.Dhan.Json.{Json, Items, Fields, Number, Rendering, truthy, py_str, str_or}
use nautilus_trader_india.Dhan.Exc.{Result, ok, err, key_error, value_error, attribute_error, ◌>>=◌}
use nautilus_trader_india.Dhan.Constants.{leg_entry, leg_names, is_member}
use nautilus_trader_india.Dhan.Orders.Units.{lots_for}
use nautilus_trader_india.Dhan.Orders.Times.{ist_to_ns}
use nautilus_trader_india.Dhan.Orders.Reports.{
  ReportedType, market, limit, order_status, side_of, first_time,
}
use nautilus_trader_india.Dhan.Orders.Reports.Rows.{
  Reading, value_of, is_text, required, number_in, price_or_none, decimal_or_none, rows_of,
}
use nautilus_trader_india.Dhan.SuperOrders.{leg_venue_order_id}

-- The report of a leg. It has no trigger, and its validity is always DAY.
pub record LegReport : Type 0 where
  pub instrument_id : String
  pub venue_order_id : String
  pub client_order_id : Option String
  pub order_side : OrderSide
  pub order_type : ReportedType
  pub order_status : OrderStatus
  pub quantity : Quantity
  pub filled_qty : Quantity
  pub price : Option Decimal
  pub avg_px : Option Number
  pub cancel_reason : Option String
  pub ts_accepted : ℤ
  pub ts_last : ℤ

-- `first or second`
abbrev pub value_or : Option Json → Option Json → Option Json
value_or first second = if value_of first then first else second

-- `_leg_quantity(leg) or row.get("quantity")`, over LEG_QUANTITY_KEYS
unfoldable pub leg_quantity : Fields → Fields → Option Json
leg_quantity leg row = value_or (Json.get "totalQuatity" leg) (
    value_or (Json.get "totalQuantity" leg)
      (value_or (Json.get "remainingQuantity" leg) (Json.get "quantity" row)))

unfoldable pub status_named : String → Result OrderStatus
status_named name = elim (order_status name) [ none ↦ err value_error | some s ↦ ok s ]

-- `str(value) if value else None`
unfoldable pub text_or_none : Rendering → Option Json → Option String
text_or_none py none = none
text_or_none py (some v) = if truthy v then some (py_str py v) else none

-- `ClientOrderId(correlation) if correlation and leg_name == LEG_ENTRY else None`
unfoldable pub id_of_entry : Bool → String → Option String
id_of_entry is_entry correlation =
    if is_entry then (if str_eq correlation "" then none else some correlation) else none

-- `_report`
unfoldable pub report :
    Reading
    → Fields
    → Instrument
    → String
    → OrderSide
    → Option Json
    → Option Json
    → Fields
    → Result LegReport
report r row instrument leg_name side quantity price parent =
    let is_entry = str_eq leg_name leg_entry in
    do
      status ←
          status_named
            (str_or r.py (value_or (Json.get "orderStatus" row) (Json.get "orderStatus" parent)) "")
      order_id ← required r.py "orderId" parent
      units ← number_in r quantity
      contracts ← lots_for instrument units
      filled ← number_in r (if is_entry then Json.get "filledQty" parent else none)
      filled_qty ← lots_for instrument filled
      price ← price_or_none r price
      avg_px ← decimal_or_none r (if is_entry then Json.get "averageTradedPrice" parent else none)
      ts_accepted ← ist_to_ns r.py r.zone (Json.get "createTime" parent)
      ts_last ← first_time r.py r.zone (Json.get "updateTime" parent) (Json.get "createTime" parent)
      ok (record {
        instrument_id = instrument.id;
        venue_order_id = leg_venue_order_id order_id leg_name;
        client_order_id = id_of_entry is_entry (str_or r.py (Json.get "correlationId" parent) "");
        order_side = side;
        order_type = if is_text (Json.get "orderType" parent) "MARKET" then market else limit;
        order_status = status;
        quantity = contracts;
        filled_qty = filled_qty;
        price = price;
        avg_px = avg_px;
        cancel_reason = text_or_none r.py (Json.get "omsErrorDescription" parent);
        ts_accepted = ts_accepted;
        ts_last = ts_last;
      })

-- `str(leg.get("legName") or "")`
abbrev pub name_of : Reading → Fields → String
name_of r leg = str_or r.py (Json.get "legName" leg) ""

-- The loop over `legDetails`: a leg of another name is skipped.
unfoldable pub leg_reports : Reading → Instrument → Fields → Items → Result (List LegReport)
leg_reports r instrument row Items.nil = ok []
leg_reports r instrument row (Items.cons (Json.obj leg) legs) =
    let rest = leg_reports r instrument row legs in
    if is_member (name_of r leg) leg_names
    then (do
      first ←
          report r leg instrument (name_of r leg) (side_of leg) (leg_quantity leg row)
            (Json.get "price" leg) row
      others ← rest
      ok (first ∷ others))
    else rest
leg_reports r instrument row (Items.cons _ legs) = err attribute_error

-- `row.get("legDetails") or []`
unfoldable pub legs_of : Option Json → Result Items
legs_of none = ok Items.nil
legs_of (some v) = rows_of v

-- The reports of one super order: its entry, and then its legs.
unfoldable pub row_reports : Reading → Instrument → Fields → Result (List LegReport)
row_reports r instrument row = do
  entry ←
      report r row instrument leg_entry (side_of row) (Json.get "quantity" row)
        (Json.get "price" row) row
  legs ← legs_of (Json.get "legDetails" row)
  others ← leg_reports r instrument row legs
  ok (entry ∷ others)

-- One pass of the loop.
unfoldable pub reports_for : Reading → (Fields → Option Instrument) → Json → Result (List LegReport)
reports_for r instrument_for (Json.obj row) = elim (instrument_for row) [
  | none ↦ ok []
  | some instrument ↦ row_reports r instrument row
]
reports_for r instrument_for _ = err attribute_error

unfoldable pub reports_in : Reading → (Fields → Option Instrument) → Items → Result (List LegReport)
reports_in r instrument_for Items.nil = ok []
reports_in r instrument_for (Items.cons row rows) = do
  first ← reports_for r instrument_for row
  others ← reports_in r instrument_for rows
  ok (first ++ others)

-- `reports_from`
unfoldable pub reports_from :
    Reading → (Fields → Option Instrument) → Json → Result (List LegReport)
reports_from r instrument_for body = do rows ← rows_of body; reports_in r instrument_for rows
