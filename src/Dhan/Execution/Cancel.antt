-- ===== src/Dhan/Execution/Cancel.antt =====
-- `_cancel_order`, `_cancel_all_orders` and the cancel of a super order's leg, of
-- nautilus_india/dhan/execution.py.
pub mod Laws
pub mod Direct
use Prim.Native.String.{◌++◌ as str_append}
use nautilus_trader_india.Prelude.{
  String, Bool, true, false, Option, none, some, List, [], ◌∷◌, ◌&&◌, not, if◌then◌else◌,
}
use nautilus_trader_india.Nautilus.{Order, OrderSide, buy, sell, no_order_side}
use nautilus_trader_india.Dhan.Exc.{Exc, Result, ambiguous, is_dhan_error}
use nautilus_trader_india.Dhan.Http.{delete, put}
use nautilus_trader_india.Dhan.Constants.{orders_path, super_orders_path}
use nautilus_trader_india.Dhan.SuperOrders
use nautilus_trader_india.Dhan.SuperOrders.{is_side, LegTerms}
use nautilus_trader_india.Dhan.Execution.Client.{
  Env, Action, Subject, Body, ◌>>=◌, ◌>>◌, pure, lift, raise, attempt, emit, send, canceled,
  cancel_rejected, no_venue_order_id, refused,
}
use nautilus_trader_india.Dhan.Execution.ForeverOrder.{unless_ambiguous}

-- The handlers around the DELETE: an unknown outcome emits nothing.
unfoldable pub on_cancel_failure : Subject → String → Exc → Action (Unit {0})
on_cancel_failure subject venue_order_id (ambiguous f) = pure tt
on_cancel_failure subject venue_order_id e =
    if is_dhan_error e
    then emit (cancel_rejected subject (some venue_order_id) (refused e))
    else raise e

-- `f"{ORDERS_PATH}/{venue_order_id.value}"`
unfoldable pub order_path : String → String
order_path venue_order_id = str_append orders_path (str_append "/" venue_order_id)

-- `_cancel_order`, on the command's ids.
unfoldable pub cancel_order : Env → Subject → Option String → Action (Unit {0})
cancel_order env subject none = emit (cancel_rejected subject none no_venue_order_id)
cancel_order env subject (some venue_order_id) =
    attempt (send env delete (order_path venue_order_id) Body.empty)
      (on_cancel_failure subject venue_order_id) λ _. emit (canceled subject venue_order_id)

-- The loop of `_open_venue_order_ids`.
unfoldable pub venue_ids_on : OrderSide → List Order → List String
venue_ids_on side [] = []
venue_ids_on side (o ∷ orders) =
    let rest = venue_ids_on side orders in
    if not (is_side side no_order_side) && not (is_side o.side side)
    then rest
    else elim o.venue_order_id [ none ↦ rest | some v ↦ v ∷ rest ]

-- `_open_venue_order_ids`
unfoldable pub open_venue_order_ids : Env → String → OrderSide → List String
unfolding venue_ids_on
open_venue_order_ids env instrument_id side = venue_ids_on side (env.orders_open instrument_id)

-- `_client_order_id_for`; an id is never falsy.
unfoldable pub client_order_id_for : Env → String → String
client_order_id_for env venue_order_id = elim (env.client_order_id venue_order_id) [
  | none ↦ venue_order_id
  | some mine ↦ mine
]

unfoldable pub cancel_each : Env → String → String → List String → Action (Unit {0})
cancel_each env strategy_id instrument_id [] = pure tt
cancel_each env strategy_id instrument_id (v ∷ vs) = do
  cancel_order env
      (record {
        strategy_id = strategy_id;
        instrument_id = instrument_id;
        client_order_id = client_order_id_for env v;
      })
      (some v)
  cancel_each env strategy_id instrument_id vs

-- `_cancel_all_orders`: one DELETE for each working order.
unfoldable pub cancel_all_orders : Env → String → String → OrderSide → Action (Unit {0})
unfolding cancel_each
cancel_all_orders env strategy_id instrument_id side =
    cancel_each env strategy_id instrument_id (open_venue_order_ids env instrument_id side)

-- `cancel_super_order_leg`
unfoldable pub cancel_super_order_leg : Env → String → String → Action (Unit {0})
cancel_super_order_leg env order_id leg_name = do
  path ← lift (SuperOrders.cancel_path order_id leg_name)
  attempt (send env delete path Body.empty) unless_ambiguous λ _. pure tt

-- `modify_super_order_leg`
unfoldable pub modify_super_order_leg : Env → String → String → LegTerms → Action (Unit {0})
modify_super_order_leg env order_id leg_name terms = do
  payload ← lift (SuperOrders.modify_payload order_id env.client_id leg_name terms)
  attempt
      (send env put (str_append super_orders_path (str_append "/" order_id))
        (Body.super_leg payload))
      unless_ambiguous λ _. pure tt
