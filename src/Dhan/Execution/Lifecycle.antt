-- ===== src/Dhan/Execution/Lifecycle.antt =====
-- The constructor, `_connect` and `_disconnect` of nautilus_india/dhan/execution.py, and the
-- constructor of nautilus_india/dhan/http.py. Whether the provider's `initialize` returns is an
-- argument.
pub mod Sound
use mathlib.Core.List.{reverse}
use Prim.Native.String.{◌++◌ as str_append}
use nautilus_trader_india.Prelude.{
  ℕ, suc, ◌<◌, ◌⊎◌, ◌&&◌, ◌||◌, ◌≡◌, String, Bool, true, false, Option, none, some, List, [], ◌∷◌,
  Text, codes, str_eq, ◌==◌, is_some, if◌then◌else◌,
}
use nautilus_trader_india.Dhan.Auth.{
  DhanCredentials, Resolved, credentials, missing, set_text, connect_credentials,
}

-- What the lifecycle reads of the configuration.
pub record Settings : Type 0 where
  pub client_id : Option String
  pub access_token : Option String
  pub base_url : Text
  pub order_updates : Bool

unfoldable pub drop_slashes : Text → Text
drop_slashes [] = []
drop_slashes (c ∷ t) = let rest = drop_slashes t in if c == b'/' then rest else c ∷ t

-- `base_url.rstrip("/")`
unfoldable pub rstrip_slash : Text → Text
unfolding drop_slashes
rstrip_slash t = reverse (drop_slashes (reverse t))

-- `DhanHttpClient`, by the values that its requests carry.
pub record HttpClient : Type 0 where
  pub credentials : DhanCredentials
  pub base : Text

unfoldable pub http_client : DhanCredentials → Text → HttpClient
unfolding rstrip_slash
http_client found base_url = record { credentials = found; base = rstrip_slash base_url }

-- `has_task` says whether `_order_update_task` holds a task; `lost_tasks` counts those that run on
-- although no attribute holds them any more.
pub record Session : Type 0 where
  pub dhan_client_id : String
  pub account_id : String
  pub http : Option HttpClient
  pub has_task : Bool
  pub lost_tasks : ℕ
  pub order_updates_connected : Bool

-- `f"{name}-{client_id}"`
unfoldable pub account_named : String → String → String
account_named name client_id = str_append name (str_append "-" client_id)

unfoldable pub or_unset : String → String
or_unset client_id = if str_eq client_id "" then "UNSET" else client_id

-- `__init__`
unfoldable pub initial : String → Settings → Session
unfolding account_named or_unset
initial name settings =
    let client_id = set_text settings.client_id in
    record {
      dhan_client_id = client_id;
      account_id = account_named name (or_unset client_id);
      http = none;
      has_task = false;
      lost_tasks = 0;
      order_updates_connected = false;
    }

-- Whether `_connect` comes to the creation of a task.
abbrev pub creates_task : Settings → Bool → Bool
creates_task settings initializes = initializes && settings.order_updates

-- `_connect`, once the credentials are there. The task that was held before, if any, is not cancelled:
-- it runs on, and nothing holds it. An HTTP client that was held before is dropped unclosed.
unfoldable pub connect_as : String → Settings → Bool → DhanCredentials → Session → Session
unfolding account_named http_client
connect_as name settings initializes found s = record s {
  dhan_client_id = found.client_id;
  account_id = account_named name found.client_id;
  http = some (http_client found settings.base_url);
  has_task = creates_task settings initializes || s.has_task;
  lost_tasks =
      if creates_task settings initializes && s.has_task then suc s.lost_tasks else s.lost_tasks;
}

unfoldable pub connect_with : String → Settings → Bool → Resolved → Session → Session × Bool
connect_with name settings initializes (missing names) s = (s, false)
connect_with name settings initializes (credentials found) s =
    (connect_as name settings initializes found s, initializes)

-- `_connect`: the session, and whether it returned. Nothing has changed where credentials are
-- missing; where `initialize` raises, what stands before it is done.
unfoldable pub connect :
    String → Settings → (String → Option String) → Bool → Session → Session × Bool
connect name settings source initializes s =
    connect_with name settings initializes
      (connect_credentials settings.client_id settings.access_token source) s

-- `_disconnect`
unfoldable pub disconnect : Session → Session
disconnect s = record s {
  http = none;
  has_task = false;
  order_updates_connected = if s.has_task then false else s.order_updates_connected;
}

-- What happens to a session. Only a task that runs says whether its stream is connected: the one
-- that is held, or one that was lost.
pub data Step (name : String) (settings : Settings) : Session → Session → Type 0 where
  connects :
      (s : Session) (source : String → Option String) (initializes : Bool)
      → Step name settings s (connect name settings source initializes s).0
  says :
      (s : Session) (connected : Bool)
      → (s.has_task ≡ true) ⊎ (0 < s.lost_tasks)
      → Step name settings s (record s { order_updates_connected = connected })
  disconnects : (s : Session) → Step name settings s (disconnect s)

pub data Reaches (name : String) (settings : Settings) : Session → Type 0 where
  starts : Reaches name settings (initial name settings)
  follows :
      (s t : Session) → Reaches name settings s → Step name settings s t → Reaches name settings t
