-- ===== src/Dhan/ForeverOrders.antt =====
-- nautilus_india/dhan/forever_orders.py, the request half: Good-Till-Triggered orders.
pub mod Placed
pub mod Reports
use Prim.Native.String.{◌++◌ as str_append}
use nautilus_trader_india.Prelude.{
  ℕ, String, Bool, true, false, Option, none, some, List, [], ◌∷◌, ◌==◌, if◌then◌else◌,
}
use nautilus_trader_india.Nautilus.{
  Decimal, OrderSide, buy, OrderType, limit, market, stop_limit, stop_market, Order, Instrument,
  Library, read_price,
}
use nautilus_trader_india.Dhan.Exc.{
  Result, ok, err, ◌>>=◌, unsendable, bad_order_type, bad_product_type, bad_leg_name, no_trigger,
  bad_order_flag,
}
use nautilus_trader_india.Dhan.Constants.{
  forever_orders_path, forever_product_types, leg_target, leg_stop_loss, order_flag_single,
  order_flag_oco, order_flags, side_buy, side_sell,
}
use nautilus_trader_india.Dhan.Orders.{
  segment_name, checked, units_for, correlation_id, validity_for,
}
use nautilus_trader_india.Dhan.Orders.Payload.{disclosed}
use nautilus_trader_india.Dhan.SuperOrders.{is_side}

-- `order_type_for_forever`: what the order becomes once its trigger fires.
unfoldable pub order_type_for_forever : OrderType → Result String
order_type_for_forever stop_limit = ok "LIMIT"
order_type_for_forever limit = ok "LIMIT"
order_type_for_forever stop_market = ok "MARKET"
order_type_for_forever market = ok "MARKET"
order_type_for_forever (OrderType.other n) = err (unsendable bad_order_type)

-- `_trigger_of`
unfoldable pub trigger_of : Order → Result Decimal
trigger_of order = elim order.trigger_price [ none ↦ err (unsendable no_trigger) | some t ↦ ok t ]

-- `price1`, `triggerPrice1` and `quantity1`
pub record SecondLeg : Type 0 where
  pub price : Option Decimal
  pub trigger_price : Decimal
  pub quantity : ℕ

-- The body of POST /v2/forever/orders; a `price` that is `none` is sent as the empty text.
pub record ForeverPayload : Type 0 where
  pub dhan_client_id : String
  pub correlation_id : String
  pub order_flag : String
  pub transaction_type : String
  pub exchange_segment : String
  pub product_type : String
  pub order_type : String
  pub validity : String
  pub security_id : String
  pub quantity : ℕ
  pub price : Option Decimal
  pub trigger_price : Decimal
  pub disclosed_quantity : Option ℕ
  pub second_leg : Option SecondLeg

unfoldable pub second_leg_fields : Library → Instrument → Option Order → Result (Option SecondLeg)
second_leg_fields lib instrument none = ok none
second_leg_fields lib instrument (some leg) = do
  price ← read_price lib leg
  trigger ← trigger_of leg
  ok (
      some (record {
        price = price;
        trigger_price = trigger;
        quantity = units_for instrument leg.quantity;
      }))

abbrev pub flag_for : Option Order → String
flag_for none = order_flag_single
flag_for (some leg) = order_flag_oco

-- `place_payload`
unfoldable pub place_payload :
    Library → Order → Instrument → String → String → String → Option Order → Result ForeverPayload
place_payload lib order instrument security_id client_id product_type second_leg = do
  dhan_type ← order_type_for_forever order.order_type
  trigger ← trigger_of order
  segment ← segment_name instrument
  product ← checked product_type forever_product_types bad_product_type
  validity ← validity_for order.time_in_force
  second ← second_leg_fields lib instrument second_leg
  ok (record {
    dhan_client_id = client_id;
    correlation_id = correlation_id lib order.client_order_id;
    order_flag = flag_for second_leg;
    transaction_type = if is_side order.side buy then side_buy else side_sell;
    exchange_segment = segment;
    product_type = product;
    order_type = dhan_type;
    validity = validity;
    security_id = security_id;
    quantity = units_for instrument order.quantity;
    price = order.price;
    trigger_price = trigger;
    disclosed_quantity = disclosed lib instrument order.display_qty;
    second_leg = second;
  })

-- The body of PUT /v2/forever/orders/{order-id}.
pub record ForeverTerms : Type 0 where
  pub dhan_client_id : String
  pub order_id : String
  pub order_flag : String
  pub order_type : String
  pub leg_name : String
  pub quantity : ℕ
  pub price : Decimal
  pub trigger_price : Decimal
  pub validity : String
  pub disclosed_quantity : Option ℕ

-- `modify_payload`
unfoldable pub modify_payload :
    String
    → String
    → String
    → String
    → String
    → ℕ
    → Decimal
    → ℕ
    → Decimal
    → String
    → Result ForeverTerms
modify_payload order_id client_id order_flag order_type leg_name units price disclosed_units trigger
      validity =
    do
      flag ← checked order_flag order_flags bad_order_flag
      leg ← checked leg_name (leg_target ∷ leg_stop_loss ∷ []) bad_leg_name
      ok (record {
        dhan_client_id = client_id;
        order_id = order_id;
        order_flag = flag;
        order_type = order_type;
        leg_name = leg;
        quantity = units;
        price = price;
        trigger_price = trigger;
        validity = validity;
        disclosed_quantity = if disclosed_units == 0 then none else some disclosed_units;
      })

-- `cancel_path`
unfoldable pub cancel_path : String → String
cancel_path order_id = str_append forever_orders_path (str_append "/" order_id)
