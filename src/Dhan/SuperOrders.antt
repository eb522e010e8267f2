-- ===== src/Dhan/SuperOrders.antt =====
-- nautilus_india/dhan/super_orders.py, the request half: entry, target and stop loss as one request.
pub mod Placed
pub mod Reports
use Prim.Native.String.{◌++◌ as str_append}
use nautilus_trader_india.Prelude.{
  ℕ, String, Bool, true, false, Option, none, some, List, [], ◌∷◌, ◌&&◌, not, str_eq, if◌then◌else◌,
}
use nautilus_trader_india.Nautilus.{
  Decimal, dec_leb, OrderSide, buy, sell, no_order_side, Order, Instrument, Library, read_price,
}
use nautilus_trader_india.Dhan.Exc.{
  Result, ok, err, ◌>>=◌, ◌>>◌, raise_if, unsendable, type_error, bad_product_type, bad_leg_name,
  not_a_super_entry, same_side_legs, inverted_legs,
}
use nautilus_trader_india.Dhan.Constants.{
  super_orders_path, super_product_types, leg_names, leg_entry, leg_target, is_member,
  super_order_types, side_buy, side_sell,
}
use nautilus_trader_india.Dhan.Orders.{
  order_type_for, segment_name, checked, units_for, correlation_id,
}

-- `_opposite`
unfoldable pub opposite : OrderSide → OrderSide
opposite buy = sell
opposite _ = buy

-- `a is b` on two members of the enumeration.
unfoldable pub is_side : OrderSide → OrderSide → Bool
is_side buy buy = true
is_side sell sell = true
is_side no_order_side no_order_side = true
is_side _ _ = false

-- The two prices that are compared: comparing with `None` is a `TypeError`.
unfoldable pub both_prices : Option Decimal → Option Decimal → Result (Decimal × Decimal)
both_prices (some t) (some s) = ok (t, s)
both_prices _ _ = err type_error

-- `stop_loss.trigger_price if stop_loss.has_trigger_price else stop_loss.price`
unfoldable pub stop_price_of : Library → Order → Result (Option Decimal)
stop_price_of lib stop_loss = elim stop_loss.trigger_price [
  | none ↦ read_price lib stop_loss
  | some p ↦ ok (some p)
]

-- The two checks that the target and the stop stand on their own sides of the entry.
unfoldable pub is_inverted : OrderSide → Decimal → Decimal → Bool
is_inverted buy target stop = dec_leb target stop
is_inverted sell target stop = dec_leb stop target
is_inverted no_order_side target stop = false

-- The comparisons are made only for an entry that buys or sells.
unfoldable pub check_legs : OrderSide → Option Decimal → Option Decimal → Result (Unit {0})
unfolding both_prices is_inverted
check_legs no_order_side target stop = ok tt
check_legs side target stop = do
  prices ← both_prices target stop
  raise_if (is_inverted side prices.0 prices.1) (unsendable inverted_legs)

-- The body of POST /v2/super/orders.
pub record SuperPayload : Type 0 where
  pub dhan_client_id : String
  pub correlation_id : String
  pub transaction_type : String
  pub exchange_segment : String
  pub product_type : String
  pub order_type : String
  pub security_id : String
  pub quantity : ℕ
  pub price : Option Decimal
  pub target_price : Option Decimal
  pub stop_loss_price : Option Decimal
  pub trailing_jump : String

-- `place_payload`; a price that is `none` is sent as the empty text.
unfoldable pub place_payload :
    Library
    → Order
    → Order
    → Order
    → Instrument
    → String
    → String
    → String
    → String
    → Result SuperPayload
place_payload lib entry target stop_loss instrument security_id client_id product_type
      trailing_jump =
    do
      dhan_type ← order_type_for entry.order_type
      raise_if (not (is_member dhan_type super_order_types)) (unsendable not_a_super_entry)
      raise_if
          (not (
            is_side target.side (opposite entry.side)
            && is_side stop_loss.side (opposite entry.side)))
          (unsendable same_side_legs)
      target_price ← read_price lib target
      stop_price ← stop_price_of lib stop_loss
      check_legs entry.side target_price stop_price
      segment ← segment_name instrument
      product ← checked product_type super_product_types bad_product_type
      ok (record {
        dhan_client_id = client_id;
        correlation_id = correlation_id lib entry.client_order_id;
        transaction_type = if is_side entry.side buy then side_buy else side_sell;
        exchange_segment = segment;
        product_type = product;
        order_type = dhan_type;
        security_id = security_id;
        quantity = units_for instrument entry.quantity;
        price = entry.price;
        target_price = target_price;
        stop_loss_price = stop_price;
        trailing_jump = trailing_jump;
      })

-- `cancel_path`
unfoldable pub cancel_path : String → String → Result String
cancel_path order_id leg_name = do
  leg ← checked leg_name leg_names bad_leg_name
  ok (str_append super_orders_path (str_append "/" (str_append order_id (str_append "/" leg))))

-- `leg_venue_order_id`
unfoldable pub leg_venue_order_id : String → String → String
leg_venue_order_id order_id leg_name =
    if str_eq leg_name leg_entry then order_id else str_append order_id (str_append ":" leg_name)

-- The fields of `modify_payload`, an absent or empty one `none`.
pub record LegTerms : Type 0 where
  pub order_type : Option String
  pub quantity_units : Option ℕ
  pub price : Option String
  pub target_price : Option String
  pub stop_loss_price : Option String
  pub trailing_jump : Option String

pub record LegPayload : Type 0 where
  pub dhan_client_id : String
  pub order_id : String
  pub leg_name : String
  pub terms : LegTerms

abbrev pub no_terms : LegTerms
no_terms = record {
  order_type = none;
  quantity_units = none;
  price = none;
  target_price = none;
  stop_loss_price = none;
  trailing_jump = none;
}

-- `str(trailing_jump) if trailing_jump else "0"`
unfoldable pub trail : Option String → String
trail none = "0"
trail (some jump) = jump

-- What each leg sends of the terms.
unfoldable pub leg_terms : String → LegTerms → LegTerms
unfolding trail
leg_terms leg terms =
    if str_eq leg leg_entry
    then terms
    else if str_eq leg leg_target
    then record no_terms { target_price = terms.target_price }
    else record no_terms {
      stop_loss_price = terms.stop_loss_price;
      trailing_jump = some (trail terms.trailing_jump);
    }

-- `modify_payload`
unfoldable pub modify_payload : String → String → String → LegTerms → Result LegPayload
modify_payload order_id client_id leg_name terms = do
  leg ← checked leg_name leg_names bad_leg_name
  ok (record {
    dhan_client_id = client_id;
    order_id = order_id;
    leg_name = leg;
    terms = leg_terms leg terms;
  })
