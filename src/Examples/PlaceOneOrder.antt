-- ===== src/Examples/PlaceOneOrder.antt =====
-- `PlaceOneOrder` of examples/dhan_execution.py, on a node that passes each call of the strategy on to
-- the client. Log lines are left out. `Price.from_str` and the id of the strategy are arguments. A
-- strategy that has stopped may hear more here than it would, and its last stop cancels once more.
pub mod Sent
pub mod Runs
use nautilus_trader_india.Prelude.{String, ◌⊎◌, inl, inr, Option, none, some, List, [], ◌∷◌}
use nautilus_trader_india.Nautilus.{Decimal, Order, Instrument, buy, no_order_side, limit, day}
use nautilus_trader_india.Dhan.Exc.{Result, ok, err}
use nautilus_trader_india.Dhan.Orders.Units.{contracts}
use nautilus_trader_india.Dhan.Execution.Client.{Env, Client}
use nautilus_trader_india.Dhan.Execution.Submit.{submit_order}
use nautilus_trader_india.Dhan.Execution.Cancel.{cancel_all_orders}
use nautilus_trader_india.Dhan.Config.{ExecConfig}
use nautilus_trader_india.Dhan.Execution.Lifecycle.{Settings}
use nautilus_trader_india.Dhan.Factories.{create_exec}
use nautilus_trader_india.Examples.{OneOrder, Started, exits, runs}

-- What the strategy asks of the node: `submit_order` and `stop`.
pub data Call : Type 0 where
  submit : Order → Call
  stop : Call

-- The order that `on_start` makes: one lot.
unfoldable pub one_order : OneOrder → String → Decimal → Order
one_order config strategy_id price = record {
  client_order_id = "example-1";
  strategy_id = strategy_id;
  instrument_id = config.instrument_id;
  side = buy;
  order_type = limit;
  time_in_force = day;
  quantity = contracts 1;
  price = some price;
  trigger_price = none;
  display_qty = none;
  venue_order_id = none;
}

-- `on_start`, on the price that was read, and on the instrument from the cache. Where the price
-- raises, nothing is asked for.
unfoldable pub priced : OneOrder → String → Result Decimal → List Call
priced config strategy_id (ok price) = submit (one_order config strategy_id price) ∷ []
priced config strategy_id (err e) = []

unfoldable pub on_start :
    (String → Result Decimal) → OneOrder → String → Option Instrument → List Call
on_start price_from config strategy_id none = stop ∷ []
on_start price_from config strategy_id (some instrument) =
    priced config strategy_id (price_from config.limit_price)

-- What the strategy hears between its start and its stop.
pub data Heard : Type 0 where
  order_denied order_accepted order_rejected order_filled quote_tick : Heard

-- `on_order_denied` stops; the other handlers ask for nothing.
unfoldable pub on_heard : Heard → List Call
on_heard order_denied = stop ∷ []
on_heard _ = []

module _ (env : Env) (config : OneOrder) (strategy_id : String) where
  -- `on_stop`
  unfoldable pub on_stop : Client → Client
  on_stop c = (cancel_all_orders env strategy_id config.instrument_id no_order_side c).1

  unfoldable pub perform : List Call → Client → Client
  perform [] c = c
  perform (submit order ∷ calls) c = perform calls (submit_order env order c).1
  perform (stop ∷ calls) c = perform calls (on_stop c)

  unfoldable pub hear : List Heard → Client → Client
  hear [] c = c
  hear (heard ∷ rest) c = hear rest (perform (on_heard heard) c)

  -- The strategy from its start to its stop.
  unfoldable pub run : (String → Result Decimal) → List Heard → Client → Client
  run price_from heard c =
      let calls = on_start price_from config strategy_id (env.instrument config.instrument_id) in
      on_stop (hear heard (perform calls c))

-- What the environment and the configuration of the node say.
abbrev pub armed_by : (String → Option String) → ExecConfig → Env → Env
armed_by source config env = record env {
  config = config;
  live_orders_env = source "NAUTILUS_INDIA_LIVE_ORDERS";
}

-- A node from its build to its stop: what its execution client did, where it has one.
module _ (env : Env) (source : String → Option String) (price_from : String → Result Decimal)
    (strategy_id : String) (heard : List Heard) where
  unfoldable pub run_strategy : ExecConfig → Option OneOrder → Client → Client
  run_strategy exec none c = c
  run_strategy exec (some config) c =
      run (armed_by source exec env) config strategy_id price_from heard c

  unfoldable pub run_client : Option OneOrder → Option (ExecConfig × Settings) → Option Client
  run_client strategy none = none
  run_client strategy (some (exec, settings)) =
      some (run_strategy exec strategy (create_exec "DHAN" settings).client)

  -- `main`, once the node is configured: what it exits with, or what its execution client did.
  unfoldable pub launch : Started → List String ⊎ Option Client
  launch (exits names) = inl names
  launch (runs node) = inr (run_client node.strategy node.exec_config)
