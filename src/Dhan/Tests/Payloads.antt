-- ===== src/Dhan/Tests/Payloads.antt =====
-- Payloads, quantities and ids.
use nautilus_trader_india.Prelude.{◌≡◌, ◌≢◌, ◌≤◌, ◌↔◌, refl, some, [], ◌∷◌, codes, length, String}
use nautilus_trader_india.Nautilus.{Decimal, dec_leb, read_price}
use nautilus_trader_india.Dhan.Exc.{ok}
use nautilus_trader_india.Dhan.Constants.{segment_names, is_member}
use nautilus_trader_india.Dhan.Orders.{
  units_for, correlation_id, client_order_id_for, order_type_for, segment_name, checked,
}
use nautilus_trader_india.Dhan.Orders.Correlation.Matching.{
  SafeButLast, IsOneOf, correlation_id-SafeButLast, client_order_id_for_iff,
}
use nautilus_trader_india.Dhan.SuperOrders
use nautilus_trader_india.Dhan.SuperOrders.{SuperPayload, opposite}
use nautilus_trader_india.Dhan.SuperOrders.Placed.{IsOrdered, place_payload-IsOrdered}
use nautilus_trader_india.Dhan.Tests.Fixtures.{
  lib, lib-IsDigest, entry, target, stop_loss, instrument,
}

abbrev id : String
id = "O-19700101-000000-001-000-1"

abbrev echoed : String
echoed = "0123456789abcdef01"

correlation_id-SafeButLast_example :
    (length (codes (correlation_id lib id)) ≤ 25) × SafeButLast (codes (correlation_id lib id))
correlation_id-SafeButLast_example = correlation_id-SafeButLast lib id lib-IsDigest

client_order_id_for_iff_example :
    (client_order_id_for lib echoed (id ∷ []) ≡ some id)
    ↔ ((echoed ≢ "") × IsOneOf id (id ∷ []) × (correlation_id lib id ≡ echoed))
client_order_id_for_iff_example = client_order_id_for_iff lib echoed id (id ∷ []) (tt, tt)

super_placed :
    (p : SuperPayload) × (SuperOrders.place_payload lib entry target stop_loss instrument "35001"
        "1000" "INTRADAY" "0"
      ≡ ok p)
unfolding SuperOrders.place_payload order_type_for is_member SuperOrders.is_side opposite read_price
    SuperOrders.stop_price_of SuperOrders.check_legs dec_leb segment_name segment_names checked
super_placed = (_, refl)

place_payload-IsOrdered_example :
    (target.side ≡ opposite entry.side)
    × (stop_loss.side ≡ opposite entry.side)
    × ((super_placed.0).quantity ≡ units_for instrument entry.quantity)
    × ((t : Decimal) × (s : Decimal) × ((super_placed.0).target_price ≡ some t)
        × ((super_placed.0).stop_loss_price ≡ some s)
        × IsOrdered entry.side t s)
place_payload-IsOrdered_example =
    place_payload-IsOrdered lib entry target stop_loss instrument "35001" "1000" "INTRADAY" "0"
      super_placed.0 super_placed.1 (λ h. cc)
