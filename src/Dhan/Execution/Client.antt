-- ===== src/Dhan/Execution/Client.antt =====
-- The state of `DhanExecutionClient`, what it sends and what it emits, and its methods as actions
-- that may raise. What was sent or emitted before a raise stays.
use nautilus_trader_india.Prelude.{◌≡◌, arith, String, Bool, true, Option, List, [], ◌∷◌, ◌++◌}
use nautilus_trader_india.Nautilus.{Decimal, Quantity, Order, Instrument, Library}
use nautilus_trader_india.Dhan.Json.{Json, Rendering}
use nautilus_trader_india.Dhan.Exc.{Exc, Result, ok, err}
use nautilus_trader_india.Dhan.Http
use nautilus_trader_india.Dhan.Http.{Method, Response}
use nautilus_trader_india.Dhan.Config.{ExecConfig, Switch}
use nautilus_trader_india.Dhan.Orders.{PlacePayload, ModifyPayload}
use nautilus_trader_india.Dhan.SuperOrders.{SuperPayload, LegPayload}
use nautilus_trader_india.Dhan.ForeverOrders.{ForeverPayload}

pub data Body : Type 0 where
  empty : Body
  place : PlacePayload → Body
  modify : ModifyPayload → Body
  super_order : SuperPayload → Body
  super_leg : LegPayload → Body
  forever_order : ForeverPayload → Body

pub record Request : Type 0 where
  pub method : Method
  pub path : String
  pub body : Body

-- The ids that every event names.
pub record Subject : Type 0 where
  pub strategy_id : String
  pub instrument_id : String
  pub client_order_id : String

-- Why an order was denied, or its cancel or modify rejected before anything was sent.
pub data Reason : Type 0 where
  not_armed : List Switch → Reason
  is_degraded not_in_cache not_a_bracket no_venue_order_id incomplete_terms : Reason
  refused : Exc → Reason

-- The `generate_order_*` calls. Their time stamps are left out.
pub data Event : Type 0 where
  denied : Subject → Reason → Event
  submitted : Subject → Event
  rejected : Subject → Exc → Event
  accepted canceled : Subject → String → Event
  cancel_rejected : Subject → Option String → Reason → Event
  modify_rejected : Subject → Option String → Reason → Event
  updated : Subject → String → Quantity → Decimal → Event

-- `sent` and `events` are in the order of the calls.
pub record Client : Type 0 where
  pub is_degraded_by_ip : Bool
  pub sent : List Request
  pub events : List Event

-- What the client reads and does not change during a call: its configuration, the environment
-- variable, the provider's `_security_ids`, the cache, and how the venue answers a request after
-- those that were sent before it.
pub record Env : Type 0 where
  pub py : Rendering
  pub lib : Library
  pub config : ExecConfig
  pub live_orders_env : Option String
  pub client_id : String
  pub security_ids : String → Option String
  pub instrument : String → Option Instrument
  pub order : String → Option Order
  pub client_order_id : String → Option String
  pub orders_open : String → List Order
  pub venue : List Request → Request → Response

abbrev pub Action : Type 0 → Type 0
Action A = Client → Result A × Client

infixl 5 ◌>>=◌ ◌>>◌
abbrev pub ◌>>=◌ : {A B : Type 0} → Action A → (A → Action B) → Action B
◌>>=◌ m f c = let (r, c') = m c in elim r [ ok a ↦ f a c' | err e ↦ (err e, c') ]

abbrev pub ◌>>◌ : {B : Type 0} → Action (Unit {0}) → Action B → Action B
m >> k = m >>= λ _. k

-- An action that returned is followed by the rest of its block.
pub >>=-eq_of_ok :
    {A B : Type 0} (m : Action A) (f : A → Action B) (c : Client) (a : A)
    → (m c).0 ≡ ok a
    → (m >>= f) c ≡ f a (m c).1
>>=-eq_of_ok {A} {B} m f c a h = go (m c).0 (m c).1 h
  where
    go :
        (r : Result A) (c' : Client)
        → r ≡ ok a
        → (elim r as (λ _. Result B × Client) [ ok x ↦ f x c' | err e ↦ (err e, c') ]) ≡ f a c'
    go (ok x) c' e = ground arith
    go (err x) c' e = absurd (cc)

abbrev pub pure : {A : Type 0} → A → Action A
pure a c = (ok a, c)

abbrev pub lift : {A : Type 0} → Result A → Action A
lift r c = (r, c)

abbrev pub raise : {A : Type 0} → Exc → Action A
raise e c = (err e, c)

-- `try: a = m` with its handlers, and what follows when nothing was raised.
abbrev pub attempt : {A B : Type 0} → Action A → (Exc → Action B) → (A → Action B) → Action B
attempt m handler rest c = let (r, c') = m c in elim r [ ok a ↦ rest a c' | err e ↦ handler e c' ]

-- `for order in orders: generate_order_*(...)`
abbrev pub emit_all : List Event → Action (Unit {0})
emit_all es c = (ok tt, record c { events = c.events ++ es })

abbrev pub emit : Event → Action (Unit {0})
emit e = emit_all (e ∷ [])

-- `self.is_degraded_by_ip = True`
abbrev pub degrade : Action (Unit {0})
degrade c = (ok tt, record c { is_degraded_by_ip = true })

-- `self._http.post`, `put` and `delete`
unfoldable pub send : Env → Method → String → Body → Action Json
send env method path body c =
    let request : Request = record { method = method; path = path; body = body } in
    (
      Http.write env.py method path (env.venue c.sent request),
      record c { sent = c.sent ++ request ∷ [] },
    )

abbrev pub subject_of : Order → Subject
subject_of order = record {
  strategy_id = order.strategy_id;
  instrument_id = order.instrument_id;
  client_order_id = order.client_order_id;
}
