-- ===== src/Dhan/Execution/Update.antt =====
-- `_handle_order_update` of nautilus_india/dhan/execution.py, once the message is parsed: whose
-- order an update is about, and what it makes the client do.
pub mod Handled
pub mod Messages
pub mod Ours
use Prim.Native.String.{◌++◌ as str_append}
use nautilus_trader_india.Prelude.{String, List, Option, none, some, str_eq, if◌then◌else◌}
use nautilus_trader_india.Nautilus.{
  Order, OrderStatus, submitted, accepted, rejected, canceled, partially_filled, filled, expired,
}
use nautilus_trader_india.Dhan.Constants.{trades_path}
use nautilus_trader_india.Dhan.Orders.{client_order_id_for}
use nautilus_trader_india.Dhan.OrderUpdates.{OrderUpdate}
use nautilus_trader_india.Dhan.Execution.Client.{Env, Subject}

-- The event that is emitted, or the path that is asked for the fills.
pub data Effect : Type 0 where
  ignored : Effect
  emits_accepted emits_canceled emits_expired : Subject → String → Effect
  emits_rejected : Subject → String → Effect
  asks_trades : Order → String → Effect

-- `update.reason or "rejected by the venue"`
unfoldable pub reason_of : OrderUpdate → String
reason_of update = if str_eq update.reason "" then "rejected by the venue" else update.reason

-- `f"{TRADES_PATH}/{update.venue_order_id.value}"`
unfoldable pub trades_of : OrderUpdate → String
trades_of update = str_append trades_path (str_append "/" update.venue_order_id)

unfoldable pub effect_on : Order → Subject → OrderUpdate → OrderStatus → Effect
unfolding reason_of trades_of
effect_on order subject update accepted = emits_accepted subject update.venue_order_id
effect_on order subject update canceled = emits_canceled subject update.venue_order_id
effect_on order subject update rejected = emits_rejected subject (reason_of update)
effect_on order subject update expired = emits_expired subject update.venue_order_id
effect_on order subject update filled = asks_trades order (trades_of update)
effect_on order subject update partially_filled = asks_trades order (trades_of update)
effect_on order subject update submitted = ignored

-- The order of ours, and the id that it was found under.
unfoldable pub effect_of : String → Option Order → OrderUpdate → Effect
unfolding effect_on
effect_of client_order_id none update = ignored
effect_of client_order_id (some order) update =
    effect_on order
      (record {
        strategy_id = order.strategy_id;
        instrument_id = order.instrument_id;
        client_order_id = client_order_id;
      })
      update update.order_status

unfoldable pub effect_for : Env → Option String → OrderUpdate → Effect
effect_for env none update = ignored
effect_for env (some client_order_id) update =
    effect_of client_order_id (env.order client_order_id) update

-- `_handle_order_update`, over `_known_client_order_ids`.
unfoldable pub handle_order_update : Env → List String → OrderUpdate → Effect
unfolding effect_for
handle_order_update env known_ids update =
    effect_for env (client_order_id_for env.lib update.correlation_id known_ids) update
