-- ===== src/Dhan/Tests/Sessions.antt =====
-- A session that is connected under the credentials of the environment.
use nautilus_trader_india.Prelude.{◌≡◌, refl, String, Option, none, some, true, codes, inl}
use nautilus_trader_india.Dhan.Auth.{
  connect_credentials, from_env, resolved, unset_name, set_text, filled_in,
}
use nautilus_trader_india.Dhan.Execution.Stream.{started, lost, fails_to_open, starts, steps}
use nautilus_trader_india.Dhan.Execution.Stream.Recovers.{Recovers, Reaches-Recovers}
use nautilus_trader_india.Dhan.Execution.Lifecycle.{
  Settings, Session, initial, connect, connect_with, connect_as, disconnect, connects, says,
  starts as constructs, follows,
}
use nautilus_trader_india.Dhan.Execution.Lifecycle.Sound.{
  IsSound, IsReleased, Loses, lifecycle-IsSound,
}
use nautilus_trader_india.Dhan.Tests.Fixtures.{env}

abbrev settings : Settings
settings = record {
  client_id = none;
  access_token = none;
  base_url = codes "https://api.dhan.co/";
  order_updates = true;
}

abbrev source : String → Option String
source key = some "1000"

abbrev connected : Session
connected = (connect "DHAN" settings source true (initial "DHAN" settings)).0

abbrev streaming : Session
streaming = record connected { order_updates_connected = true }

has_task : connected.has_task ≡ true
unfolding connect connect_with connect_as connect_credentials from_env resolved unset_name set_text
    filled_in
has_task = refl

lifecycle-IsSound_example :
    IsSound "DHAN" streaming × IsReleased (disconnect streaming) × Loses "DHAN" settings streaming
lifecycle-IsSound_example = lifecycle-IsSound "DHAN" settings streaming (
    follows connected streaming
      (follows (initial "DHAN" settings) connected constructs
        (connects (initial "DHAN" settings) source true))
      (says connected true (inl has_task)))

Reaches-Recovers_example : Recovers env (lost started)
unfolding lost
Reaches-Recovers_example =
    Reaches-Recovers env (lost started)
      (steps started (lost started) starts (fails_to_open started refl refl)) refl
