-- ===== src/Dhan/Orders/Reports.antt =====
-- The reports of nautilus_india/dhan/orders.py: one row of an answer as a report. The ids and the
-- time of the report itself are left out.
pub mod Rows
pub mod Dead
pub mod Laws
pub mod Positions
use nautilus_trader_india.Prelude.{
  ℕ, ℤ, pos, String, Bool, true, false, not, ◌&&◌, ◌||◌, Option, none, some, List, is_some, str_eq,
  ◌==◌, or_else, if◌then◌else◌,
}
use nautilus_trader_india.Nautilus.{
  Decimal, Quantity, OrderSide, buy, sell, OrderStatus, submitted, accepted, rejected, canceled,
  partially_filled, filled, expired, Instrument, Library,
}
use nautilus_trader_india.Dhan.Json
use nautilus_trader_india.Dhan.Json.{Json, Fields, Number, Rendering, py_str, str_or}
use nautilus_trader_india.Dhan.Exc.{Result, ok, err, key_error, value_error, ◌>>=◌}
use nautilus_trader_india.Dhan.Orders.Units.{lots_for}
use nautilus_trader_india.Dhan.Orders.Correlation.{client_order_id_for}
use nautilus_trader_india.Dhan.Orders.Times.{ist_to_ns}
use nautilus_trader_india.Core.Calendar.{Zone}
use nautilus_trader_india.Dhan.Orders.Reports.Rows.{
  Reading, value_of, is_text, required, number_in, price_or_none, decimal_or_none, required_price,
}

-- `OrderType` and `TimeInForce` of a report: Dhan's answers are read as two of each.
pub data ReportedType : Type 0 where
  market limit : ReportedType

pub data ReportedValidity : Type 0 where
  ioc day : ReportedValidity

pub data TriggerType : Type 0 where
  default no_trigger : TriggerType

pub record OrderStatusReport : Type 0 where
  pub instrument_id : String
  pub venue_order_id : String
  pub client_order_id : Option String
  pub order_side : OrderSide
  pub order_type : ReportedType
  pub time_in_force : ReportedValidity
  pub order_status : OrderStatus
  pub quantity : Quantity
  pub filled_qty : Quantity
  pub price : Option Decimal
  pub trigger_price : Option Decimal
  pub trigger_type : TriggerType
  pub avg_px : Option Number
  pub cancel_reason : Option String
  pub ts_accepted : ℤ
  pub ts_last : ℤ

pub record FillReport : Type 0 where
  pub instrument_id : String
  pub venue_order_id : String
  pub trade_id : String
  pub order_side : OrderSide
  pub last_qty : Quantity
  pub last_px : Decimal
  pub ts_event : ℤ

pub data PositionSide : Type 0 where
  long short flat : PositionSide

pub record PositionStatusReport : Type 0 where
  pub instrument_id : String
  pub position_side : PositionSide
  pub quantity : Quantity
  pub avg_px_open : Option Number
  pub ts_last : ℤ

-- ORDER_STATUS
unfoldable pub order_status : String → Option OrderStatus
order_status name =
    if str_eq name "TRANSIT"
    then some submitted
    else if str_eq name "PENDING"
    then some accepted
    else if str_eq name "REJECTED"
    then some rejected
    else if str_eq name "CANCELLED"
    then some canceled
    else if str_eq name "PART_TRADED"
    then some partially_filled
    else if str_eq name "TRADED"
    then some filled
    else if str_eq name "EXPIRED"
    then some expired
    else none

-- `raw in _DEAD_STATUSES`
unfoldable pub is_dead : String → Bool
is_dead raw = str_eq raw "REJECTED" || (str_eq raw "CANCELLED" || str_eq raw "EXPIRED")

-- `_side_of`
unfoldable pub side_of : Fields → OrderSide
side_of row = if is_text (Json.get "transactionType" row) "BUY" then buy else sell

-- `_status_of`
unfoldable pub status_of : Rendering → Fields → Result OrderStatus
status_of py row = elim (order_status (str_or py (Json.get "orderStatus" row) "")) [
  | none ↦ err value_error
  | some status ↦ ok status
]

-- `str(row["omsErrorDescription"])` of a row that is dead.
unfoldable pub reason_in : Rendering → Option Json → String → Option String
reason_in py none status = none
reason_in py (some v) status =
    if value_of (some v) && is_dead status then some (py_str py v) else none

-- `str(row.get(key))`
unfoldable pub str_of_get : Rendering → Option Json → String
str_of_get py none = "None"
str_of_get py (some v) = py_str py v

-- `ist_to_ns(first) or ist_to_ns(second)`: the second stamp is read only where the first is unset.
unfoldable pub first_time : Rendering → Zone → Option Json → Option Json → Result ℤ
first_time py zone first second = do
  ns ← ist_to_ns py zone first
  elim ns as (λ _. Result ℤ) [
    | pos n ↦ if n == 0 then ist_to_ns py zone second else ok (pos n)
    | other ↦ ok other
  ]

-- `order_status_report`
unfoldable pub order_status_report :
    Reading → Fields → Instrument → List String → Result OrderStatusReport
order_status_report r row instrument client_order_ids = do
  order_id ← required r.py "orderId" row
  status ← status_of r.py row
  quantity ← number_in r (Json.get "quantity" row)
  quantity ← lots_for instrument quantity
  filled_qty ← number_in r (Json.get "filledQty" row)
  filled_qty ← lots_for instrument filled_qty
  price ← price_or_none r (Json.get "price" row)
  trigger_price ← price_or_none r (Json.get "triggerPrice" row)
  avg_px ← decimal_or_none r (Json.get "averageTradedPrice" row)
  ts_accepted ← ist_to_ns r.py r.zone (Json.get "createTime" row)
  ts_last ← first_time r.py r.zone (Json.get "updateTime" row) (Json.get "createTime" row)
  ok (record {
    instrument_id = instrument.id;
    venue_order_id = order_id;
    client_order_id =
        client_order_id_for r.lib (str_or r.py (Json.get "correlationId" row) "") client_order_ids;
    order_side = side_of row;
    order_type = if is_text (Json.get "orderType" row) "MARKET" then market else limit;
    time_in_force = if is_text (Json.get "validity" row) "IOC" then ioc else day;
    order_status = status;
    quantity = quantity;
    filled_qty = filled_qty;
    price = price;
    trigger_price = trigger_price;
    trigger_type = if value_of (Json.get "triggerPrice" row) then default else no_trigger;
    avg_px = avg_px;
    cancel_reason =
        reason_in r.py (Json.get "omsErrorDescription" row)
          (str_of_get r.py (Json.get "orderStatus" row));
    ts_accepted = ts_accepted;
    ts_last = ts_last;
  })

-- `fill_report`
unfoldable pub fill_report : Reading → Fields → Instrument → Result FillReport
fill_report r row instrument = do
  order_id ← required r.py "orderId" row
  trade_id ← required r.py "exchangeTradeId" row
  quantity ← number_in r (Json.get "tradedQuantity" row)
  last_qty ← lots_for instrument quantity
  last_px ← required_price r "tradedPrice" row
  ts_event ← first_time r.py r.zone (Json.get "exchangeTime" row) (Json.get "createTime" row)
  ok (record {
    instrument_id = instrument.id;
    venue_order_id = order_id;
    trade_id = trade_id;
    order_side = side_of row;
    last_qty = last_qty;
    last_px = last_px;
    ts_event = ts_event;
  })

-- _POSITION_SIDE
unfoldable pub position_side : String → Option PositionSide
position_side name =
    if str_eq name "LONG"
    then some long
    else if str_eq name "SHORT"
    then some short
    else if str_eq name "CLOSED"
    then some flat
    else none

unfoldable pub side_named : String → Result PositionSide
side_named name = elim (position_side name) [ none ↦ err value_error | some side ↦ ok side ]

-- `Decimal(str(row.get("netQty") or 0))`, where 0 stands for a missing one.
unfoldable pub is_flat : Option Number → Bool
is_flat none = true
is_flat (some net) = net.coefficient == 0

unfoldable pub is_positive : Option Number → Bool
is_positive none = false
is_positive (some net) = not net.negative && not (net.coefficient == 0)

-- `position_status_report`
unfoldable pub position_status_report : Reading → Fields → Instrument → Result PositionStatusReport
position_status_report r row instrument = do
  side ← side_named (str_or r.py (Json.get "positionType" row) "")
  net ← number_in r (Json.get "netQty" row)
  quantity ← lots_for instrument net
  avg_px ←
      decimal_or_none r (if is_positive net then Json.get "buyAvg" row else Json.get "sellAvg" row)
  ts_last ← ist_to_ns r.py r.zone (Json.get "updateTime" row)
  ok (record {
    instrument_id = instrument.id;
    position_side = if is_flat net then flat else side;
    quantity = quantity;
    avg_px_open = avg_px;
    ts_last = ts_last;
  })
