-- ===== src/Dhan/Ws/Urls.antt =====
-- The URLs of nautilus_india/dhan/ws.py: the one that is used, and the one that is logged.
use Prim.Native.String.{◌++◌ as str_append}
use nautilus_trader_india.Prelude.{String}
use nautilus_trader_india.Dhan.Constants.{market_feed_wss}

abbrev url_with : String → String → String
url_with token client_id = str_append market_feed_wss (
    str_append "?version=2&token="
      (str_append token (str_append "&clientId=" (str_append client_id "&authType=2"))))

-- `feed_url`
unfoldable pub feed_url : String → String → String
feed_url token client_id = url_with token client_id

-- `redacted_feed_url`, which takes the token and does not use it.
unfoldable pub redacted_feed_url : String → String → String
redacted_feed_url token client_id = url_with "<redacted>" client_id
