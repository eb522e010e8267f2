-- ===== src/Core/Fees/Slices.antt =====
-- What an order that is filled in slices pays.
use native.Mathlib.Nat.{add-mul, mul-add}
use nautilus_trader_india.Prelude.{
  ℕ, ◌+◌, ◌*◌, ◌^◌, ◌≡◌, ◌<◌, ◌≤◌, sym, ap, ◌∙◌, Bool, true, false, some, arith, ltb, List,
}
use nautilus_trader_india.Nautilus.{Quantity, OrderSide, buy, sell, no_order_side, Instrument}
use nautilus_trader_india.Core.Date.{Date}
use nautilus_trader_india.Core.Fees.{
  Rates, total, rates_on, charges, leg_cost, Fill, int_of_quantity, trade_date, commission_of,
  Money, get_commission,
}

-- The GST that is charged on the flat brokerage, over the same denominator as a commission.
abbrev pub gst_on_brokerage : Rates → Quantity → ℕ
gst_on_brokerage r price = r.gst * (r.brokerage_flat * 10 ^ price.places)

-- A whole number of contracts.
abbrev pub lots : ℕ → Quantity
lots n = record { coefficient = n; places = 0 }

int_of_lots : (n : ℕ) → int_of_quantity (lots n) ≡ n
unfolding int_of_quantity
int_of_lots n = omega arith

-- The denominator of a commission.
abbrev pub unit_of : Rates → Quantity → ℕ
unit_of r price = 10 ^ price.places * r.scale * r.scale

charges-slices :
    (r : Rates) (side : OrderSide) (a b over : ℕ)
    → commission_of false (charges r side a over) + commission_of true (charges r side b over)
      ≡ commission_of false (charges r side (a + b) over) + r.gst * (r.brokerage_flat * over)
unfolding commission_of total charges
charges-slices r buy a b over = omega (
  arith,
  add-mul a b (r.exchange * r.scale),
  add-mul a b (r.sebi * r.scale),
  add-mul a b (r.stamp_buy * r.scale),
  add-mul a b (r.gst * r.exchange),
)
charges-slices r sell a b over = omega (
  arith,
  add-mul a b (r.exchange * r.scale),
  add-mul a b (r.sebi * r.scale),
  add-mul a b (r.stt_sell * r.scale),
  add-mul a b (r.gst * r.exchange),
)
charges-slices r no_order_side a b over = omega (
  arith,
  add-mul a b (r.exchange * r.scale),
  add-mul a b (r.sebi * r.scale),
  add-mul a b (r.gst * r.exchange),
)

-- What a slice of so many units pays at a price, as the first slice of its order or as a later one.
abbrev pub slice_cost : Rates → OrderSide → Quantity → Bool → ℕ → ℕ
slice_cost r side price is_later units =
    commission_of is_later (charges r side (price.coefficient * units) (10 ^ price.places))

slices :
    (r : Rates) (side : OrderSide) (price : Quantity) (m n lot : ℕ)
    → slice_cost r side price false (m * lot) + slice_cost r side price true (n * lot)
      ≡ slice_cost r side price false ((m + n) * lot) + gst_on_brokerage r price
slices r side price m n lot =
    let c = price.coefficient in
    let split : c * ((m + n) * lot) ≡ c * (m * lot) + c * (n * lot) =
      ap (λ (x : ℕ). c * x) (add-mul m n lot) ∙ mul-add c (m * lot) (n * lot) in
    rw split (charges-slices r side (c * (m * lot)) (c * (n * lot)) (10 ^ price.places))

get_commission-slice_cost :
    (money : Money) (ist_date : ℕ → Date) (table : List Rates) (order : Fill) (qty price : Quantity)
    (instrument : Instrument) (r : Rates)
    → rates_on (trade_date ist_date order) table ≡ some r
    → get_commission money ist_date table order qty price instrument
      ≡ some (
          money
            (slice_cost r order.side price
              (ltb 0 (int_of_quantity order.filled_qty))
              (int_of_quantity qty * int_of_quantity instrument.multiplier))
            (unit_of r price))
unfolding get_commission leg_cost charges
get_commission-slice_cost money ist_date table order qty price instrument r h =
    rw (h, get_commission, leg_cost)

-- `Money` rounds to a nearest number of paise, of two that are as near to either.
pub record IsNearest (money : Money) : Type 0 where
  pub below : (n d : ℕ) → 0 < d → 2 * (money n d * d) ≤ 2 * (100 * n) + d
  pub above : (n d : ℕ) → 0 < d → 2 * (100 * n) ≤ 2 * (money n d * d) + d

rounded_slices :
    (money : Money) (a b c g d : ℕ)
    → IsNearest money
    → 0 < d
    → a + b ≡ c + g
    → (2 * ((money a d + money b d) * d) ≤ 2 * (money c d * d + 100 * g) + 3 * d)
      × (2 * (money c d * d + 100 * g) ≤ 2 * ((money a d + money b d) * d) + 3 * d)
rounded_slices money a b c g d near some_unit h =
    let a_low = near.below a d some_unit in
    let b_low = near.below b d some_unit in
    let c_low = near.below c d some_unit in
    let a_high = near.above a d some_unit in
    let b_high = near.above b d some_unit in
    let c_high = near.above c d some_unit in
    let split = add-mul (money a d) (money b d) d in
    (omega (arith, a_low, b_low, c_high, split, h), omega (arith, a_high, b_high, c_low, split, h))

-- An order that is filled in two slices at one price and on the rates of one day pays what it
-- would have paid in one fill, and once more the GST on the flat brokerage, which the later slice
-- does not pay again; all to within a paisa and a half, since each of the three commissions is
-- rounded to a nearest paisa. The commissions are in paise.
pub get_commission-slices :
    (money : Money) (ist_date : ℕ → Date) (table : List Rates) (first later : Fill) (m n : ℕ)
    (price : Quantity) (instrument : Instrument) (r : Rates)
    → IsNearest money
    → 0 < unit_of r price
    → first.side ≡ later.side
    → int_of_quantity first.filled_qty ≡ 0
    → 0 < int_of_quantity later.filled_qty
    → rates_on (trade_date ist_date first) table ≡ some r
    → rates_on (trade_date ist_date later) table ≡ some r
    → (a : ℕ) × (b : ℕ) × (c : ℕ) × (get_commission money ist_date table first
          (lots m)
          price
          instrument
        ≡ some a)
      × (get_commission money ist_date table later (lots n) price instrument ≡ some b)
      × (get_commission money ist_date table first (lots (m + n)) price instrument ≡ some c)
      × (2 * ((a + b) * unit_of r price)
          ≤ 2 * (c * unit_of r price + 100 * gst_on_brokerage r price) + 3 * unit_of r price)
      × (2 * (c * unit_of r price + 100 * gst_on_brokerage r price)
          ≤ 2 * ((a + b) * unit_of r price) + 3 * unit_of r price)
get_commission-slices money ist_date table first later m n price instrument r near some_unit same
      fresh part at_first at_later =
    let cost = slice_cost r first.side price in
    let lot = int_of_quantity instrument.multiplier in
    let d = unit_of r price in
    let is_first : ltb 0 (int_of_quantity first.filled_qty) ≡ false = ground (arith, fresh) in
    let is_later : ltb 0 (int_of_quantity later.filled_qty) ≡ true = ground (arith, part) in
    let (low, high) =
      rounded_slices money (cost false (m * lot)) (cost true (n * lot)) (cost false ((m + n) * lot))
        (gst_on_brokerage r price) d near some_unit (slices r first.side price m n lot) in
    (
      money (cost false (m * lot)) d,
      money (cost true (n * lot)) d,
      money (cost false ((m + n) * lot)) d,
      get_commission-slice_cost money ist_date table first (lots m) price instrument r at_first
          ∙ rw (is_first, int_of_lots m),
      get_commission-slice_cost money ist_date table later (lots n) price instrument r at_later
          ∙ rw (is_later, int_of_lots n, sym same),
      get_commission-slice_cost money ist_date table first (lots (m + n)) price instrument r
            at_first
          ∙ rw (is_first, int_of_lots (m + n)),
      low,
      high,
    )
