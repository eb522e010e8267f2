-- ===== src/Nautilus.antt =====
-- The objects of NautilusTrader that nautilus_india reads: an order, an instrument, their numbers
-- and the enumerations, with the members that the source names; `other` stands for the rest.
use nautilus_trader_india.Prelude.{
  ℕ, ℤ, ◌*◌, ◌+◌, ◌^◌, String, Bool, Option, none, some, pos_part, neg_part, leb,
}
use nautilus_trader_india.Dhan.Exc.{Result, ok}

-- A signed decimal: coefficient / 10 ^ places.
pub record Decimal : Type 0 where
  pub coefficient : ℤ
  pub places : ℕ

-- `a <= b`, cross-multiplied, with the negative parts moved over.
unfoldable pub dec_leb : Decimal → Decimal → Bool
dec_leb a b =
    leb (pos_part a.coefficient * 10 ^ b.places + neg_part b.coefficient * 10 ^ a.places)
      (pos_part b.coefficient * 10 ^ a.places + neg_part a.coefficient * 10 ^ b.places)

-- A quantity is never negative: coefficient / 10 ^ places.
pub record Quantity : Type 0 where
  pub coefficient : ℕ
  pub places : ℕ

pub data OrderSide : Type 0 where
  buy sell no_order_side : OrderSide

pub data OrderType : Type 0 where
  limit market stop_limit stop_market : OrderType
  other : ℕ → OrderType

pub data TimeInForce : Type 0 where
  gtc day ioc : TimeInForce
  other : ℕ → TimeInForce

pub data OrderStatus : Type 0 where
  submitted accepted rejected canceled partially_filled filled expired : OrderStatus

-- `price` and `trigger_price` are `none` where `has_price` and `has_trigger_price` are false.
pub record Order : Type 0 where
  pub client_order_id : String
  pub strategy_id : String
  pub instrument_id : String
  pub side : OrderSide
  pub order_type : OrderType
  pub time_in_force : TimeInForce
  pub quantity : Quantity
  pub price : Option Decimal
  pub trigger_price : Option Decimal
  pub display_qty : Option Quantity
  pub venue_order_id : Option String

-- `segment_code` is the entry of `info`.
pub record Instrument : Type 0 where
  pub id : String
  pub multiplier : Quantity
  pub segment_code : Option ℤ

-- What the code takes from its libraries: the truth value of a quantity and of a price, what the
-- attribute `price` of an order without one reads, and the hexadecimal BLAKE2s digest of 9 bytes.
pub record Library : Type 0 where
  pub truthy_quantity : Quantity → Bool
  pub truthy_price : Decimal → Bool
  pub unpriced : Order → Result (Option Decimal)
  pub digest : String → String

-- `order.price`
unfoldable pub read_price : Library → Order → Result (Option Decimal)
read_price lib order = elim order.price [ none ↦ lib.unpriced order | some p ↦ ok (some p) ]
