-- ===== src/Dhan/OrderUpdates.antt =====
-- nautilus_india/dhan/order_updates.py: one frame of the order-update socket. Its frames are parsed
-- JSON.
pub mod Segments
pub mod Login
use nautilus_trader_india.Prelude.{
  ℕ, ℤ, pos, negsuc, ◌^◌, ◌/◌, ◌-◌, String, Bool, true, false, ◌&&◌, Option, none, some, codes, map,
  lower, to_upper, Text, text_eq, is_infix, str_eq, ◌==◌, if◌then◌else◌,
}
use nautilus_trader_india.Nautilus.{
  OrderSide, buy, sell, no_order_side, OrderStatus, submitted, accepted, rejected, canceled,
  partially_filled, filled, expired,
}
use nautilus_trader_india.Dhan.Json
use nautilus_trader_india.Dhan.Json.{Json, Fields, Number, Rendering, truthy, py_str, str_or}
use nautilus_trader_india.Dhan.Exc.{Result, ok, err, value_error, ◌>>=◌}
use nautilus_trader_india.Dhan.Constants.{segment_codes}
use nautilus_trader_india.Dhan.Orders.Times.{ist_to_ns}
use nautilus_trader_india.Dhan.Orders.Reports.Rows.{
  Reading, value_of, is_text, required, decimal_or_none,
}

-- `OrderUpdate`
pub record OrderUpdate : Type 0 where
  pub venue_order_id : String
  pub order_status : OrderStatus
  pub order_side : OrderSide
  pub security_id : String
  pub segment_code : Option ℤ
  pub quantity : ℤ
  pub traded_quantity : ℤ
  pub remaining_quantity : ℤ
  pub average_price : Option Number
  pub price : Option Number
  pub correlation_id : String
  pub reason : String
  pub ts_event : ℤ
  pub leg_number : Option ℤ
  pub is_super_order_leg : Bool

abbrev pub order_alert : String
order_alert = "order_alert"

-- `str(data.get(key, ""))`
unfoldable pub str_get : Rendering → Option Json → String
str_get py none = ""
str_get py (some v) = py_str py v

-- `text.upper() == word`
unfoldable pub is_word : String → String → Bool
is_word text word = text_eq (map to_upper (codes text)) (codes word)

-- `_status_of`, over _STATUS
unfoldable pub status_of : String → Result OrderStatus
unfolding is_word
status_of raw =
    if is_word raw "TRANSIT"
    then ok submitted
    else if is_word raw "PENDING"
    then ok accepted
    else if is_word raw "REJECTED"
    then ok rejected
    else if is_word raw "CANCELLED"
    then ok canceled
    else if is_word raw "PART_TRADED"
    then ok partially_filled
    else if is_word raw "TRADED"
    then ok filled
    else if is_word raw "EXPIRED"
    then ok expired
    else err value_error

-- _SIDE
unfoldable pub side_of : String → OrderSide
side_of raw = if is_word raw "B" then buy else if is_word raw "S" then sell else no_order_side

-- A key of two texts.
unfoldable pub is_pair : Text → Text → String → String → Bool
is_pair exchange segment e s = text_eq exchange (codes e) && text_eq segment (codes s)

-- _REST_SEGMENT_NAME
unfoldable pub rest_segment_name : Text → Text → Option String
rest_segment_name exchange segment =
    let is = is_pair exchange segment in
    if is "NSE" "E"
    then some "NSE_EQ"
    else if is "NSE" "D"
    then some "NSE_FNO"
    else if is "NSE" "C"
    then some "NSE_CURRENCY"
    else if is "NSE" "I"
    then some "IDX_I"
    else if is "BSE" "E"
    then some "BSE_EQ"
    else if is "BSE" "D"
    then some "BSE_FNO"
    else if is "BSE" "C"
    then some "BSE_CURRENCY"
    else if is "BSE" "I"
    then some "IDX_I"
    else if is "MCX" "M"
    then some "MCX_COMM"
    else none

unfoldable pub code_named : Option String → Option ℤ
code_named none = none
code_named (some name) = segment_codes name

-- `_segment_code`, on the socket's two fields
unfoldable pub segment_code : Text → Text → Option ℤ
segment_code exchange segment = code_named (rest_segment_name exchange segment)

-- `int(value)` of a number: what is behind the point is dropped.
unfoldable pub truncated : Number → ℤ
truncated n =
    let whole = n.coefficient / 10 ^ n.places in
    if n.negative then (if whole == 0 then pos 0 else negsuc (whole - 1)) else pos whole

unfoldable pub int_of : Reading → Json → Result ℤ
int_of r (Json.num n) = ok (truncated n)
int_of r v = r.int_from v

-- `int(data.get(key) or 0)`
unfoldable pub int_or_zero : Reading → Option Json → Result ℤ
unfolding int_of
int_or_zero r none = ok (pos 0)
int_or_zero r (some v) = if truthy v then int_of r v else ok (pos 0)

-- `int(data[key]) if data.get(key) is not None else None`
unfoldable pub int_or_none : Reading → Option Json → Result (Option ℤ)
unfolding int_of
int_or_none r none = ok none
int_or_none r (some Json.null) = ok none
int_or_none r (some v) = do n ← int_of r v; ok (some n)

-- `data.get(first) or data.get(second)`
unfoldable pub first_set : Option Json → Option Json → Option Json
first_set first second = if value_of first then first else second

-- The end of `parse`: `Data` of an order alert.
unfoldable pub update_in : Reading → Fields → Result OrderUpdate
update_in r fields = do
  venue_order_id ← required r.py "OrderNo" fields
  status ← status_of (str_get r.py (Json.get "Status" fields))
  quantity ← int_or_zero r (Json.get "Quantity" fields)
  traded_quantity ← int_or_zero r (Json.get "TradedQty" fields)
  remaining_quantity ← int_or_zero r (Json.get "RemainingQuantity" fields)
  average_price ← decimal_or_none r (Json.get "AvgTradedPrice" fields)
  price ← decimal_or_none r (Json.get "Price" fields)
  ts_event ←
      ist_to_ns r.py r.zone
        (first_set (Json.get "ExchOrderTime" fields) (Json.get "LastUpdatedTime" fields))
  leg_number ← int_or_none r (Json.get "LegNo" fields)
  ok (record {
    venue_order_id = venue_order_id;
    order_status = status;
    order_side = side_of (str_get r.py (Json.get "TxnType" fields));
    security_id = str_or r.py (Json.get "SecurityId" fields) "";
    segment_code =
        segment_code (codes (str_get r.py (Json.get "Exchange" fields)))
          (codes (str_get r.py (Json.get "Segment" fields)));
    quantity = quantity;
    traded_quantity = traded_quantity;
    remaining_quantity = remaining_quantity;
    average_price = average_price;
    price = price;
    correlation_id = str_or r.py (Json.get "CorrelationId" fields) "";
    reason = str_or r.py (Json.get "ReasonDescription" fields) "";
    ts_event = ts_event;
    leg_number = leg_number;
    is_super_order_leg =
        is_infix (codes "super order") (lower (codes (str_or r.py (Json.get "Remarks" fields) "")));
  })

unfoldable pub data_in : Reading → Option Json → Result (Option OrderUpdate)
data_in r (some (Json.obj fields)) = do update ← update_in r fields; ok (some update)
data_in r _ = ok none

-- `parse`
unfoldable pub parse : Reading → Json → Result (Option OrderUpdate)
parse r (Json.obj message) =
    if is_text (Json.get "Type" message) order_alert
    then data_in r (Json.get "Data" message)
    else ok none
parse r _ = ok none
