-- ===== src/Core/Fees.antt =====
-- nautilus_india/core/fees.py: the charges of a leg and the commission of a fill. The rates of a
-- period are brought to one denominator, `scale`, and the six charges of a leg to another, `unit`;
-- prices and rates are not negative. How `Money` rounds a commission to paise is an argument.
pub mod Slices
use nautilus_trader_india.Prelude.{
  ℕ, ◌+◌, ◌-◌, ◌*◌, ◌/◌, ◌^◌, Bool, true, false, ◌&&◌, Option, none, some, List, [], ◌∷◌, String,
  leb, ltb, ◌==◌, if◌then◌else◌,
}
use nautilus_trader_india.Nautilus.{Quantity, OrderSide, buy, sell, no_order_side, Instrument}
use nautilus_trader_india.Core.Date.{Date, ordinal}

-- One row of nautilus_india/core/data/rates.yaml.
pub record Rates : Type 0 where
  pub first : Date
  pub last : Date
  pub scale : ℕ
  pub stt_sell : ℕ
  pub stamp_buy : ℕ
  pub brokerage_flat : ℕ
  pub exchange : ℕ
  pub sebi : ℕ
  pub gst : ℕ
  pub stt_exercise : ℕ
  pub verified : Bool
  pub reconciled_against : Option String

pub record CostBreakdown : Type 0 where
  pub unit : ℕ
  pub stt : ℕ
  pub brokerage : ℕ
  pub exchange : ℕ
  pub sebi : ℕ
  pub stamp : ℕ
  pub gst : ℕ

-- `total`
unfoldable pub total : CostBreakdown → ℕ
total c = c.stt + c.brokerage + c.exchange + c.sebi + c.stamp + c.gst

-- `_rates`: the first row that covers the date; `none` is `UnknownCostRatesError`.
unfoldable pub rates_on : Date → List Rates → Option Rates
rates_on on [] = none
rates_on on (row ∷ rows) =
    if leb (ordinal row.first) (ordinal on) && leb (ordinal on) (ordinal row.last)
    then some row
    else rates_on on rows

-- `rates_are_verified`
unfoldable pub rates_are_verified : List Rates → Date → Option Bool
rates_are_verified table on = elim (rates_on on table) [ none ↦ none | some r ↦ some r.verified ]

-- `reconciled_against`
unfoldable pub reconciled_against : List Rates → Date → Option String
reconciled_against table on = elim (rates_on on table) [
  | none ↦ none
  | some r ↦ elim r.reconciled_against [ none ↦ some "none" | some words ↦ some words ]
]

-- `turnover * rate if side == charged else 0`
abbrev pub on_sale : OrderSide → ℕ → ℕ
on_sale sell charge = charge
on_sale buy charge = 0
on_sale no_order_side charge = 0

abbrev pub on_purchase : OrderSide → ℕ → ℕ
on_purchase buy charge = charge
on_purchase sell charge = 0
on_purchase no_order_side charge = 0

-- The charges on a turnover, which has the denominator `over`.
unfoldable pub charges : Rates → OrderSide → ℕ → ℕ → CostBreakdown
charges r side turnover over = record {
  unit = over * r.scale * r.scale;
  stt = on_sale side (turnover * (r.stt_sell * r.scale));
  brokerage = r.brokerage_flat * over * r.scale;
  exchange = turnover * (r.exchange * r.scale);
  sebi = turnover * (r.sebi * r.scale);
  stamp = on_purchase side (turnover * (r.stamp_buy * r.scale));
  gst = r.gst * (r.brokerage_flat * over) + turnover * (r.gst * r.exchange);
}

-- `leg_cost`
unfoldable pub leg_cost : List Rates → Date → OrderSide → Quantity → ℕ → Option CostBreakdown
leg_cost table on side price units = elim (rates_on on table) [
  | none ↦ none
  | some r ↦ some (charges r side (price.coefficient * units) (10 ^ price.places))
]

-- `exercise_cost`: a numerator and its denominator.
unfoldable pub exercise_cost : List Rates → Date → Quantity → ℕ → Option (ℕ × ℕ)
exercise_cost table on intrinsic units =
    if intrinsic.coefficient == 0 then some (0, 1) else elim (rates_on on table) [
      | none ↦ none
      | some r ↦
          some (intrinsic.coefficient * units * r.stt_exercise, 10 ^ intrinsic.places * r.scale)
    ]

-- What a commission reads of an order.
pub record Fill : Type 0 where
  pub side : OrderSide
  pub filled_qty : Quantity
  pub ts_last : ℕ
  pub ts_init : ℕ

-- `int(quantity)`
unfoldable pub int_of_quantity : Quantity → ℕ
int_of_quantity q = q.coefficient / 10 ^ q.places

-- `_trade_date`, given the date in India at an instant.
unfoldable pub trade_date : (ℕ → Date) → Fill → Date
trade_date ist_date order = ist_date (if order.ts_last == 0 then order.ts_init else order.ts_last)

-- A later slice of an order does not pay the brokerage again.
unfoldable pub commission_of : Bool → CostBreakdown → ℕ
commission_of is_later c = if is_later then total c - c.brokerage else total c

-- `Money(n / d, INR)` in paise: how the library rounds is an argument.
abbrev pub Money : Type 0
Money = ℕ → ℕ → ℕ

-- `get_commission`, in paise.
unfoldable pub get_commission :
    Money → (ℕ → Date) → List Rates → Fill → Quantity → Quantity → Instrument → Option ℕ
get_commission money ist_date table order fill_qty fill_px instrument =
    elim (leg_cost table (trade_date ist_date order) order.side fill_px
      (int_of_quantity fill_qty * int_of_quantity instrument.multiplier)) [
        | none ↦ none
        | some c ↦ some (money (commission_of (ltb 0 (int_of_quantity order.filled_qty)) c) c.unit)
      ]
