-- ===== src/Dhan/ForeverOrders/Reports.antt =====
-- `reports_from` of nautilus_india/dhan/forever_orders.py: one report for each resting order.
use nautilus_trader_india.Prelude.{
  ℤ, String, Option, none, some, List, [], ◌∷◌, str_eq, if◌then◌else◌,
}
use nautilus_trader_india.Nautilus.{Decimal, Quantity, OrderSide, OrderStatus, accepted, Instrument}
use nautilus_trader_india.Dhan.Json
use nautilus_trader_india.Dhan.Json.{Json, Items, Fields, str_or}
use nautilus_trader_india.Dhan.Exc.{Result, ok, err, value_error, attribute_error, ◌>>=◌}
use nautilus_trader_india.Dhan.Orders.Units.{lots_for}
use nautilus_trader_india.Dhan.Orders.Times.{ist_to_ns}
use nautilus_trader_india.Dhan.Orders.Reports.{
  TriggerType, default, no_trigger, order_status, side_of, first_time,
}
use nautilus_trader_india.Dhan.Orders.Reports.Rows.{
  Reading, value_of, required, number_in, price_or_none, rows_of,
}

pub data RestingType : Type 0 where
  stop_limit stop_market : RestingType

-- The report of a forever order, whose validity is always GTC.
pub record RestingReport : Type 0 where
  pub instrument_id : String
  pub venue_order_id : String
  pub client_order_id : Option String
  pub order_side : OrderSide
  pub order_type : RestingType
  pub order_status : OrderStatus
  pub quantity : Quantity
  pub filled_qty : Quantity
  pub price : Option Decimal
  pub trigger_price : Option Decimal
  pub trigger_type : TriggerType
  pub ts_accepted : ℤ
  pub ts_last : ℤ

-- FOREVER_ORDER_STATUS
unfoldable pub forever_order_status : String → Option OrderStatus
forever_order_status name = if str_eq name "CONFIRM" then some accepted else order_status name

unfoldable pub status_named : String → Result OrderStatus
status_named name = elim (forever_order_status name) [ none ↦ err value_error | some s ↦ ok s ]

-- `ClientOrderId(correlation) if correlation else None`
unfoldable pub id_of : String → Option String
id_of correlation = if str_eq correlation "" then none else some correlation

-- The report of one row.
unfoldable pub row_report : Reading → Instrument → Fields → Result RestingReport
row_report r instrument row = do
  status ← status_named (str_or r.py (Json.get "orderStatus" row) "")
  order_id ← required r.py "orderId" row
  units ← number_in r (Json.get "quantity" row)
  quantity ← lots_for instrument units
  filled_qty ← lots_for instrument none
  price ← price_or_none r (Json.get "price" row)
  trigger_price ← price_or_none r (Json.get "triggerPrice" row)
  ts_accepted ← ist_to_ns r.py r.zone (Json.get "createTime" row)
  ts_last ← first_time r.py r.zone (Json.get "updateTime" row) (Json.get "createTime" row)
  ok (record {
    instrument_id = instrument.id;
    venue_order_id = order_id;
    client_order_id = id_of (str_or r.py (Json.get "correlationId" row) "");
    order_side = side_of row;
    order_type = if value_of (Json.get "price" row) then stop_limit else stop_market;
    order_status = status;
    quantity = quantity;
    filled_qty = filled_qty;
    price = price;
    trigger_price = trigger_price;
    trigger_type = if value_of (Json.get "triggerPrice" row) then default else no_trigger;
    ts_accepted = ts_accepted;
    ts_last = ts_last;
  })

-- The loop of `reports_from`.
unfoldable pub reports_in :
    Reading → (Fields → Option Instrument) → Items → Result (List RestingReport)
reports_in r instrument_for Items.nil = ok []
reports_in r instrument_for (Items.cons (Json.obj row) rows) =
    let rest = reports_in r instrument_for rows in
    elim (instrument_for row) [
      | none ↦ rest
      | some instrument ↦ do first ← row_report r instrument row; others ← rest; ok (first ∷ others)
    ]
reports_in r instrument_for (Items.cons _ rows) = err attribute_error

-- `reports_from`
unfoldable pub reports_from :
    Reading → (Fields → Option Instrument) → Json → Result (List RestingReport)
reports_from r instrument_for body = do rows ← rows_of body; reports_in r instrument_for rows
