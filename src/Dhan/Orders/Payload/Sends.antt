-- ===== src/Dhan/Orders/Payload/Sends.antt =====
-- What a built payload carries.
use nautilus_trader_india.Prelude.{
  ◌≡◌, none, arith, String, Bool, is_some, false, not, ◌&&◌, if◌then◌else◌,
}
use nautilus_trader_india.Nautilus.{Order, Instrument, Library}
use nautilus_trader_india.Dhan.Exc.{ok}
use nautilus_trader_india.Dhan.Orders.Units.{units_for}
use nautilus_trader_india.Dhan.Orders.Correlation.{correlation_id}
use nautilus_trader_india.Dhan.Orders.Payload.{
  PlacePayload, place_payload, needs_price, needs_trigger,
}

-- What a payload that was built says, in terms of the order it was built from.
pub record Sends (lib : Library) (order : Order) (instrument : Instrument) (amo : Bool)
    (p : PlacePayload) : Type 0 where
  pub units : p.quantity ≡ units_for instrument order.quantity
  pub price_if_limit : p.price ≡ (if needs_price order.order_type then order.price else none)
  pub trigger_if_stop :
      p.trigger_price ≡ (if needs_trigger order.order_type then order.trigger_price else none)
  pub stop_has_trigger : (needs_trigger order.order_type && not (is_some p.trigger_price)) ≡ false
  pub sent_id : p.correlation_id ≡ correlation_id lib order.client_order_id
  pub window_if_amo : is_some p.amo_time ≡ amo

-- A payload that is built carries the order's units, its price only for the types that have one,
-- its trigger price only for a stop and then always, its correlation id, and a window exactly for
-- an after-market order.
pub place_payload-Sends :
    (lib : Library) (order : Order) (instrument : Instrument)
    (security_id client_id product : String) (amo : Bool) (amo_time : String) (p : PlacePayload)
    → place_payload lib order instrument security_id client_id product amo amo_time ≡ ok p
    → Sends lib order instrument amo p
unfolding place_payload
place_payload-Sends lib order instrument security_id client_id product amo amo_time p h = record {
  units = ground arith;
  price_if_limit = ground arith;
  trigger_if_stop = ground arith;
  stop_has_trigger = ground arith;
  sent_id = ground arith;
  window_if_amo = ground arith;
}

-- Whether a payload can be built does not turn on the security id that it will carry.
pub place_payload_any_id :
    (lib : Library) (order : Order) (instrument : Instrument) (a b client_id product : String)
    (amo : Bool) (amo_time : String) (p : PlacePayload)
    → place_payload lib order instrument a client_id product amo amo_time ≡ ok p
    → place_payload lib order instrument b client_id product amo amo_time
      ≡ ok (record p { security_id = b })
unfolding place_payload
place_payload_any_id lib order instrument a b client_id product amo amo_time p h = ground arith
