-- ===== src/Dhan/Data.antt =====
-- nautilus_india/dhan/data.py: a decoded packet as a tick. A field of a float is the number that its
-- bytes spell. The aggressor of a trade is always NO_AGGRESSOR and is left out.
pub mod Ticks
use nautilus_trader_india.Prelude.{
  ℕ, suc, zero, ◌*◌, String, Bool, true, false, not, ◌&&◌, ◌||◌, Option, none, some, List, [], ◌∷◌,
  ◌==◌, if◌then◌else◌,
}
use nautilus_trader_india.Nautilus.{Decimal}
use nautilus_trader_india.Dhan.Exc.{Result, ok, ◌>>=◌}
use nautilus_trader_india.Dhan.Binary.Price
use nautilus_trader_india.Dhan.Binary.Price.{Float, infinite, finite, float32, FromStr, to_price}
use nautilus_trader_india.Dhan.Binary.Packet.{
  DepthEntry, Quote, Contents, ticker, quote, full, Packet,
}

-- What a tick reads of an instrument.
pub record Priced : Type 0 where
  pub id : String
  pub price_precision : ℕ

-- The numbers that the text of a `TradeId` joins by hyphens.
pub record TradeId : Type 0 where
  pub security_id : ℕ
  pub ltt : ℕ
  pub quantity : ℕ

pub record TradeTick : Type 0 where
  pub instrument_id : String
  pub price : Decimal
  pub size : ℕ
  pub trade_id : TradeId
  pub ts_event : ℕ
  pub ts_init : ℕ

pub record QuoteTick : Type 0 where
  pub instrument_id : String
  pub bid_price : Decimal
  pub ask_price : Decimal
  pub bid_size : ℕ
  pub ask_size : ℕ
  pub ts_event : ℕ
  pub ts_init : ℕ

abbrev pub nanos_per_second : ℕ
nanos_per_second = 1_000_000_000

-- `not (value <= 0)` of a float: a NaN compares as false.
unfoldable pub is_above_zero : Float → Bool
is_above_zero Float.nan = true
is_above_zero (infinite negative) = not negative
is_above_zero (finite negative n d) = not negative && not (n == 0)

-- `max(quantity, 1)`
unfoldable pub at_least_one : ℕ → ℕ
at_least_one zero = 1
at_least_one (suc n) = suc n

-- What a packet has under `ltp`, `ltq` and `ltt`, where it has an `ltp`; an `ltq` that it lacks is 0.
unfoldable pub last_trade : Contents → Option (ℕ × ℕ × ℕ)
last_trade (ticker ltp ltt) = some (ltp, 0, ltt)
last_trade (quote q) = some (q.ltp, q.ltq, q.ltt)
last_trade (full q oi oi_high oi_low depth) = some (q.ltp, q.ltq, q.ltt)
last_trade _ = none

-- `_event_ns`
unfoldable pub event_ns : ℕ → ℕ
event_ns ltt = ltt * nanos_per_second

unfoldable pub trade_tick : FromStr → ℕ → Priced → ℕ → ℕ × ℕ × ℕ → Result (Option TradeTick)
unfolding event_ns at_least_one
trade_tick from_str security_id instrument ts_init (ltp, ltq, ltt) =
    if not (is_above_zero (float32 ltp)) then ok none else do
      price ← to_price from_str ltp instrument.price_precision
      ok (
          some (record {
            instrument_id = instrument.id;
            price = price;
            size = at_least_one ltq;
            trade_id = record { security_id = security_id; ltt = ltt; quantity = ltq };
            ts_event = event_ns ltt;
            ts_init = ts_init;
          }))

-- `trade_from_ticker`
unfoldable pub trade_from_ticker : FromStr → Packet → Priced → ℕ → Result (Option TradeTick)
unfolding last_trade
trade_from_ticker from_str packet instrument ts_init = elim (last_trade packet.contents) [
  | none ↦ ok none
  | some last ↦ trade_tick from_str packet.security_id instrument ts_init last
]

unfoldable pub quote_tick : FromStr → Priced → ℕ → ℕ → DepthEntry → Result (Option QuoteTick)
unfolding event_ns at_least_one
quote_tick from_str instrument ts_init ltt top =
    if not (is_above_zero (float32 top.bid_price)) || not (is_above_zero (float32 top.ask_price))
    then ok none
    else do
      bid_price ← to_price from_str top.bid_price instrument.price_precision
      ask_price ← to_price from_str top.ask_price instrument.price_precision
      ok (
          some (record {
            instrument_id = instrument.id;
            bid_price = bid_price;
            ask_price = ask_price;
            bid_size = at_least_one top.bid_qty;
            ask_size = at_least_one top.ask_qty;
            ts_event = event_ns ltt;
            ts_init = ts_init;
          }))

-- `quote_from_full`: only a full packet has a depth.
unfoldable pub quote_in : FromStr → Contents → Priced → ℕ → Result (Option QuoteTick)
quote_in from_str (full q oi oi_high oi_low (top ∷ depth)) instrument ts_init =
    quote_tick from_str instrument ts_init q.ltt top
quote_in from_str _ instrument ts_init = ok none

unfoldable pub quote_from_full : FromStr → Packet → Priced → ℕ → Result (Option QuoteTick)
unfolding quote_in
quote_from_full from_str packet instrument ts_init =
    quote_in from_str packet.contents instrument ts_init
