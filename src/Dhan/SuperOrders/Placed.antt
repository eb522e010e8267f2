-- ===== src/Dhan/SuperOrders/Placed.antt =====
-- What a placed super order guarantees, and the ids of its legs.
use nautilus_trader_india.Prelude.{String, ◌≡◌, ◌≢◌, refl, true, false, Option, none, some, arith}
use nautilus_trader_india.Nautilus.{
  Decimal, dec_leb, OrderSide, buy, sell, no_order_side, Order, Instrument, Library,
}
use nautilus_trader_india.Dhan.Exc.{ok}
use nautilus_trader_india.Dhan.Orders.{units_for}
use nautilus_trader_india.Dhan.SuperOrders.{
  SuperPayload, place_payload, opposite, is_side, check_legs,
}

-- For an entry that buys, the target stands above the stop; for one that sells, below it.
abbrev pub IsOrdered : OrderSide → Decimal → Decimal → Type 0
IsOrdered buy target stop = dec_leb target stop ≡ false
IsOrdered sell target stop = dec_leb stop target ≡ false
IsOrdered no_order_side target stop = Unit

pub is_side-eq : (a b : OrderSide) → is_side a b ≡ true → a ≡ b
unfolding is_side
is_side-eq a b h = ground arith

check_legs-IsOrdered :
    (side : OrderSide) (target stop : Option Decimal)
    → side ≢ no_order_side
    → check_legs side target stop ≡ ok tt
    → (t : Decimal) × (s : Decimal) × (target ≡ some t) × (stop ≡ some s) × IsOrdered side t s
unfolding check_legs
check_legs-IsOrdered no_order_side target stop sided h = absurd (sided refl)
check_legs-IsOrdered buy (some t) (some s) sided h = (t, s, refl, refl, ground arith)
check_legs-IsOrdered sell (some t) (some s) sided h = (t, s, refl, refl, ground arith)
check_legs-IsOrdered buy none stop sided h = absurd (cc)
check_legs-IsOrdered sell none stop sided h = absurd (cc)
check_legs-IsOrdered buy (some t) none sided h = absurd (cc)
check_legs-IsOrdered sell (some t) none sided h = absurd (cc)

module _ (lib : Library) (entry target stop_loss : Order) (instrument : Instrument)
    (security_id client_id product trailing_jump : String) (p : SuperPayload)
    (placed : place_payload lib entry target stop_loss instrument security_id client_id product
        trailing_jump
      ≡ ok p) where
  legs_checked : check_legs entry.side p.target_price p.stop_loss_price ≡ ok tt
  unfolding place_payload
  legs_checked = ground arith

  facing :
      (is_side target.side (opposite entry.side) ≡ true)
      × (is_side stop_loss.side (opposite entry.side) ≡ true)
      × (p.quantity ≡ units_for instrument entry.quantity)
  unfolding place_payload
  facing = ground arith

  -- A super order that is built has both legs on the side opposite to its entry, the units of the
  -- entry, and, for an entry that buys or sells, both prices in the order that its side asks for:
  -- the target above the stop for a buy, below it for a sell.
  pub place_payload-IsOrdered :
      entry.side ≢ no_order_side
      → (target.side ≡ opposite entry.side)
        × (stop_loss.side ≡ opposite entry.side)
        × (p.quantity ≡ units_for instrument entry.quantity)
        × ((t : Decimal) × (s : Decimal) × (p.target_price ≡ some t)
            × (p.stop_loss_price ≡ some s)
            × IsOrdered entry.side t s)
  place_payload-IsOrdered sided = (
    is_side-eq _ _ facing.0,
    is_side-eq _ _ facing.1,
    facing.2,
    check_legs-IsOrdered _ _ _ sided legs_checked,
  )

-- Whether a super order can be built does not turn on the security id that it will carry.
pub place_payload_any_id :
    (lib : Library) (entry target stop_loss : Order) (instrument : Instrument)
    (a b client_id product trailing_jump : String) (p : SuperPayload)
    → place_payload lib entry target stop_loss instrument a client_id product trailing_jump ≡ ok p
    → place_payload lib entry target stop_loss instrument b client_id product trailing_jump
      ≡ ok (record p { security_id = b })
unfolding place_payload
place_payload_any_id lib entry target stop_loss instrument a b client_id product jump p h =
    ground arith
