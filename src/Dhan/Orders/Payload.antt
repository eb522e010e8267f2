-- ===== src/Dhan/Orders/Payload.antt =====
-- The payloads of nautilus_india/dhan/orders.py. A key that is left out of the dictionary is `none`,
-- and a price stands for its text.
pub mod Sends
use nautilus_trader_india.Prelude.{
  ℕ, ℤ, negsuc, String, Bool, true, false, Option, none, some, str_eq, not, ◌&&◌, is_some,
  if◌then◌else◌, List,
}
use nautilus_trader_india.Nautilus.{
  Decimal, Quantity, OrderSide, buy, sell, no_order_side, OrderType, limit, market, stop_limit,
  stop_market, TimeInForce, gtc, day, ioc, Order, Instrument, Library,
}
use nautilus_trader_india.Dhan.Exc.{
  Exc, Refusal, Result, ok, err, ◌>>=◌, ◌>>◌, raise_if, unsendable, key_error, bad_order_type,
  bad_validity, no_segment, no_trigger, bad_product_type, bad_amo_time, bad_leg_name,
}
use nautilus_trader_india.Dhan.Constants.{
  segment_names, product_types, amo_times, leg_names, is_member, order_type_limit,
  order_type_market, order_type_stop_loss, order_type_stop_loss_market, validity_day, validity_ioc,
  side_buy, side_sell,
}
use nautilus_trader_india.Dhan.Orders.Units.{units_for}
use nautilus_trader_india.Dhan.Orders.Correlation.{correlation_id}

-- `order_type_for`
unfoldable pub order_type_for : OrderType → Result String
order_type_for limit = ok order_type_limit
order_type_for market = ok order_type_market
order_type_for stop_limit = ok order_type_stop_loss
order_type_for stop_market = ok order_type_stop_loss_market
order_type_for (OrderType.other n) = err (unsendable bad_order_type)

-- `_NEEDS_PRICE` and `_NEEDS_TRIGGER`, on the order types that `order_type_for` knows.
unfoldable pub needs_price : OrderType → Bool
needs_price limit = true
needs_price stop_limit = true
needs_price _ = false

unfoldable pub needs_trigger : OrderType → Bool
needs_trigger stop_limit = true
needs_trigger stop_market = true
needs_trigger _ = false

-- `_checked`
unfoldable pub checked : String → List String → Refusal → Result String
checked value allowed refusal =
    if is_member value allowed then ok value else err (unsendable refusal)

-- `validity_for`
unfoldable pub validity_for : TimeInForce → Result String
validity_for gtc = ok validity_day
validity_for day = ok validity_day
validity_for ioc = ok validity_ioc
validity_for (TimeInForce.other n) = err (unsendable bad_validity)

-- `_SIDE[order.side]`
unfoldable pub side_name : OrderSide → Result String
side_name buy = ok side_buy
side_name sell = ok side_sell
side_name no_order_side = err key_error

-- `segment_name`: an instrument with no code has `UNKNOWN_SEGMENT_CODE`, which is -1.
unfoldable pub segment_name : Instrument → Result String
segment_name instrument =
    let code : ℤ = elim instrument.segment_code [ none ↦ negsuc 0 | some c ↦ c ] in
    elim (segment_names code) [ none ↦ err (unsendable no_segment) | some name ↦ ok name ]

-- The body of POST /v2/orders.
pub record PlacePayload : Type 0 where
  pub dhan_client_id : String
  pub correlation_id : String
  pub transaction_type : String
  pub exchange_segment : String
  pub product_type : String
  pub order_type : String
  pub validity : String
  pub security_id : String
  pub quantity : ℕ
  pub after_market_order : Bool
  pub price : Option Decimal
  pub trigger_price : Option Decimal
  pub disclosed_quantity : Option ℕ
  pub amo_time : Option String

-- `if display:` and the units that it is sent as.
unfoldable pub disclosed : Library → Instrument → Option Quantity → Option ℕ
disclosed lib instrument none = none
disclosed lib instrument (some display) =
    if lib.truthy_quantity display then some (units_for instrument display) else none

abbrev pub only_if : Bool → Option Decimal → Option Decimal
only_if true p = p
only_if false p = none

-- `amoTime` is checked and sent only once the order is an after-market one.
unfoldable pub amo_field : Bool → String → Result (Option String)
amo_field true amo_time = do t ← checked amo_time amo_times bad_amo_time; ok (some t)
amo_field false amo_time = ok none

-- `place_payload`
unfoldable pub place_payload :
    Library → Order → Instrument → String → String → String → Bool → String → Result PlacePayload
unfolding disclosed amo_field
place_payload lib order instrument security_id client_id product_type after_market_order amo_time =
    do
      dhan_type ← order_type_for order.order_type
      let price = only_if (needs_price order.order_type) order.price
      let trigger = only_if (needs_trigger order.order_type) order.trigger_price
      raise_if (needs_trigger order.order_type && not (is_some trigger)) (unsendable no_trigger)
      side ← side_name order.side
      segment ← segment_name instrument
      product ← checked product_type product_types bad_product_type
      validity ← validity_for order.time_in_force
      amo ← amo_field after_market_order amo_time
      ok (record {
        dhan_client_id = client_id;
        correlation_id = correlation_id lib order.client_order_id;
        transaction_type = side;
        exchange_segment = segment;
        product_type = product;
        order_type = dhan_type;
        validity = validity;
        security_id = security_id;
        quantity = units_for instrument order.quantity;
        after_market_order = after_market_order;
        price = price;
        trigger_price = trigger;
        disclosed_quantity = disclosed lib instrument order.display_qty;
        amo_time = amo;
      })

-- The body of PUT /v2/orders/{order-id}.
pub record ModifyPayload : Type 0 where
  pub dhan_client_id : String
  pub order_id : String
  pub order_type : String
  pub quantity : ℕ
  pub price : Decimal
  pub validity : String
  pub leg_name : Option String
  pub trigger_price : Option Decimal

-- `modify_payload`; an empty text for the trigger price is `none`.
unfoldable pub modify_payload :
    String → String → ℕ → Decimal → Option Decimal → String → String → String → Result ModifyPayload
modify_payload order_id client_id quantity_units price trigger_price validity order_type leg_name =
    do
      leg ←
          (if str_eq leg_name ""
            then ok none
            else (do l ← checked leg_name leg_names bad_leg_name; ok (some l)))
      ok (record {
        dhan_client_id = client_id;
        order_id = order_id;
        order_type = order_type;
        quantity = quantity_units;
        price = price;
        validity = validity;
        leg_name = leg;
        trigger_price = trigger_price;
      })
