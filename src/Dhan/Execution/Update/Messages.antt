-- ===== src/Dhan/Execution/Update/Messages.antt =====
-- `_handle_order_update` of nautilus_india/dhan/execution.py on a frame of the socket: parsed, matched
-- to an order, and its fills asked for.
use nautilus_trader_india.Prelude.{Bool, true, false, Option, none, some, List, if◌then◌else◌}
use nautilus_trader_india.Dhan.Json.{Json}
use nautilus_trader_india.Dhan.Exc.{Exc, value_error, Result, ok, err, ◌>>=◌}
use nautilus_trader_india.Dhan.OrderUpdates.{OrderUpdate, parse}
use nautilus_trader_india.Dhan.Execution.Client.{Env}
use nautilus_trader_india.Dhan.Execution.Books.{Books}
use nautilus_trader_india.Dhan.Execution.Reports.{Filled, emit_fills_for}
use nautilus_trader_india.Dhan.Execution.Update.{
  Effect, ignored, emits_accepted, emits_canceled, emits_expired, emits_rejected, asks_trades,
  handle_order_update,
}

-- What a frame made the client do.
pub data Outcome : Type 0 where
  quiet : Outcome
  emitted : Effect → Outcome
  fills : List Filled → Outcome

unfoldable pub on_effect : Books → OrderUpdate → Effect → Result Outcome
on_effect books update ignored = ok quiet
on_effect books update (asks_trades order path) = do
  found ← emit_fills_for books order update.venue_order_id
  ok (fills found)
on_effect books update (emits_accepted subject id) = ok (emitted (emits_accepted subject id))
on_effect books update (emits_canceled subject id) = ok (emitted (emits_canceled subject id))
on_effect books update (emits_expired subject id) = ok (emitted (emits_expired subject id))
on_effect books update (emits_rejected subject why) = ok (emitted (emits_rejected subject why))

-- `except ValueError`
unfoldable pub is_value_error : Exc → Bool
is_value_error value_error = true
is_value_error _ = false

unfoldable pub on_parsed : Env → Books → Result (Option OrderUpdate) → Result Outcome
on_parsed env books (err e) = if is_value_error e then ok quiet else err e
on_parsed env books (ok none) = ok quiet
on_parsed env books (ok (some update)) =
    on_effect books update (handle_order_update env books.client_order_ids update)

-- `_handle_order_update`
unfoldable pub handle_message : Env → Books → Json → Result Outcome
handle_message env books message = on_parsed env books (parse books.reading message)
