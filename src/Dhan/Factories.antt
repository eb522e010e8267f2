-- ===== src/Dhan/Factories.antt =====
-- nautilus_india/dhan/factories.py, and what the constructors of nautilus_india/dhan/data.py and
-- nautilus_india/dhan/execution.py leave. Loop, message bus, cache and clock are handed on to the
-- base class and are left out.
use nautilus_trader_india.Prelude.{String, Option, none, false, []}
use nautilus_trader_india.Core.Symbology.{Exchange}
use nautilus_trader_india.Dhan.Config.{DataConfig}
use nautilus_trader_india.Dhan.Providers.{Provider, unloaded}
use nautilus_trader_india.Dhan.Execution.Client.{Client}
use nautilus_trader_india.Dhan.Execution.Lifecycle.{Settings, Session, initial}

-- A client of no venue: its instruments carry theirs.
pub record DataClient : Type 0 where
  pub client_id : String
  pub venue : Option Exchange
  pub config : DataConfig
  pub provider : Provider
  pub url : String

-- `DhanDataClient.__init__`
unfoldable pub data_client : String → DataConfig → DataClient
data_client name config = record {
  client_id = name;
  venue = none;
  config = config;
  provider = unloaded;
  url = config.scrip_master_url;
}

-- `DhanLiveDataClientFactory.create`
unfoldable pub create_data : String → DataConfig → DataClient
unfolding data_client
create_data name config = data_client name config

-- What `DhanExecutionClient.__init__` sets: the session and the state that the commands change.
pub record ExecClient : Type 0 where
  pub session : Session
  pub client : Client
  pub provider : Provider

unfoldable pub exec_client : String → Settings → ExecClient
exec_client name settings = record {
  session = initial name settings;
  client = record { is_degraded_by_ip = false; sent = []; events = [] };
  provider = unloaded;
}

-- `DhanLiveExecClientFactory.create`
unfoldable pub create_exec : String → Settings → ExecClient
unfolding exec_client
create_exec name settings = exec_client name settings
