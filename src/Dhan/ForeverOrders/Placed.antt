-- ===== src/Dhan/ForeverOrders/Placed.antt =====
-- What a placed forever order waits for, and when it is an OCO.
use nautilus_trader_india.Prelude.{String, ◌≡◌, Option, none, some, arith}
use nautilus_trader_india.Nautilus.{Decimal, Order, Instrument, Library}
use nautilus_trader_india.Dhan.Exc.{ok}
use nautilus_trader_india.Dhan.Orders.{units_for}
use nautilus_trader_india.Dhan.ForeverOrders.{
  SecondLeg, ForeverPayload, place_payload, trigger_of, second_leg_fields, flag_for,
}

-- The second leg of the payload, against the order that was given for it.
abbrev pub IsLegOf : Instrument → Option Order → Option SecondLeg → Type 0
IsLegOf instrument none none = Unit
IsLegOf instrument (some leg) (some l) =
    (leg.trigger_price ≡ some l.trigger_price) × (l.quantity ≡ units_for instrument leg.quantity)
IsLegOf instrument none (some l) = ⊥
IsLegOf instrument (some leg) none = ⊥

trigger_of-eq :
    (order : Order) (t : Decimal) → trigger_of order ≡ ok t → order.trigger_price ≡ some t
unfolding trigger_of
trigger_of-eq order t h = ground arith

second_leg_fields-IsLegOf :
    (lib : Library) (instrument : Instrument) (second : Option Order) (sent : Option SecondLeg)
    → second_leg_fields lib instrument second ≡ ok sent
    → IsLegOf instrument second sent
unfolding second_leg_fields
second_leg_fields-IsLegOf lib instrument none none h = tt
second_leg_fields-IsLegOf lib instrument none (some l) h = absurd (cc)
second_leg_fields-IsLegOf lib instrument (some leg) none h = ground arith
second_leg_fields-IsLegOf lib instrument (some leg) (some l) h =
    (trigger_of-eq leg l.trigger_price (ground arith), ground arith)

-- A forever order that is built waits for the order's own trigger and carries its units. It is an
-- OCO with a second leg exactly when a second leg was given, and that leg carries its own trigger
-- and its own units.
pub place_payload-IsLegOf :
    (lib : Library) (order : Order) (instrument : Instrument)
    (security_id client_id product : String) (second : Option Order) (p : ForeverPayload)
    → place_payload lib order instrument security_id client_id product second ≡ ok p
    → (order.trigger_price ≡ some p.trigger_price)
      × (p.quantity ≡ units_for instrument order.quantity)
      × (p.order_flag ≡ flag_for second)
      × IsLegOf instrument second p.second_leg
unfolding place_payload
place_payload-IsLegOf lib order instrument security_id client_id product second p h = (
  trigger_of-eq order p.trigger_price (ground arith),
  ground arith,
  ground arith,
  second_leg_fields-IsLegOf lib instrument second p.second_leg (ground arith),
)
