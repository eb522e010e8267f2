-- ===== src/Examples.antt =====
-- The scripts of examples/: which node each of them configures.
pub mod PlaceOneOrder
mod Tests
use nautilus_trader_india.Prelude.{
  String, Bool, false, Option, none, some, List, [], ◌∷◌, ◌++◌, codes,
}
use nautilus_trader_india.Dhan.Auth.{client_id_env, access_token_env, set_text, unset_name}
use nautilus_trader_india.Dhan.Constants.{base_url, is_member}
use nautilus_trader_india.Dhan.Config.{DataConfig, data_defaults, ExecConfig, exec_defaults}
use nautilus_trader_india.Dhan.Execution.Lifecycle.{Settings}

-- `OneOrder`: what the strategy of examples/dhan_execution.py is configured with.
pub record OneOrder : Type 0 where
  pub instrument_id : String
  pub limit_price : String

-- The clients of the node, all named DHAN. `exec_config` is the configuration of the execution client, by
-- what its commands and its lifecycle read.
pub record Node : Type 0 where
  pub trader_id : String
  pub underlyings : List String
  pub data_config : DataConfig
  pub exec_config : Option (ExecConfig × Settings)
  pub strategy : Option OneOrder

-- `SystemExit`, with the variables that it names, or a node that runs.
pub data Started : Type 0 where
  exits : List String → Started
  runs : Node → Started

-- `missing`
unfoldable pub missing_keys : (String → Option String) → List String
missing_keys source =
    unset_name client_id_env (set_text (source client_id_env))
    ++ unset_name access_token_env (set_text (source access_token_env))

unfoldable pub started_with : List String → Node → Started
started_with [] node = runs node
started_with (name ∷ names) node = exits (name ∷ names)

-- `main` of examples/dhan_market_data.py
unfoldable pub market_data_main : (String → Option String) → Started
market_data_main source = started_with (missing_keys source) (record {
  trader_id = "EXAMPLE-001";
  underlyings = "NIFTY" ∷ [];
  data_config = data_defaults;
  exec_config = none;
  strategy = none;
})

-- `"--live" in sys.argv`
unfoldable pub is_live : List String → Bool
is_live argv = is_member "--live" argv

-- The node of examples/dhan_execution.py.
unfoldable pub execution_node : List String → Node
execution_node argv = record {
  trader_id = "EXAMPLE-001";
  underlyings = "NIFTY" ∷ [];
  data_config = data_defaults;
  exec_config = some (
    record exec_defaults { live_orders = is_live argv },
    record {
      client_id = none;
      access_token = none;
      base_url = codes base_url;
      order_updates = false;
    },
  );
  strategy = some (record { instrument_id = "NIFTY260929002455000CE.NSE"; limit_price = "1.00" });
}

-- `main` of examples/dhan_execution.py
unfoldable pub execution_main : List String → (String → Option String) → Started
execution_main argv source = started_with (missing_keys source) (execution_node argv)
