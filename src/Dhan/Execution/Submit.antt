-- ===== src/Dhan/Execution/Submit.antt =====
-- `_submit_order` and `_refusal_for` of nautilus_india/dhan/execution.py. Log lines are left out.
use nautilus_trader_india.Prelude.{
  String, Bool, true, false, Option, none, some, List, str_eq, if◌then◌else◌,
}
use nautilus_trader_india.Nautilus.{Order, Instrument}
use nautilus_trader_india.Dhan.Json
use nautilus_trader_india.Dhan.Json.{Json, Rendering, py_str}
use nautilus_trader_india.Dhan.Exc
use nautilus_trader_india.Dhan.Exc.{
  Exc, Result, ok, err, ambiguous, ip_not_whitelisted, lookup_error, key_error, type_error,
  attribute_error, value_error, is_dhan_error, is_local_refusal,
}
use nautilus_trader_india.Dhan.Http.{post}
use nautilus_trader_india.Dhan.Constants.{orders_path, order_slicing_path}
use nautilus_trader_india.Dhan.Config.{Switch, submission_refusal}
use nautilus_trader_india.Dhan.Orders.{PlacePayload, place_payload}
use nautilus_trader_india.Dhan.Execution.Client.{
  Env, Client, Action, Reason, Body, ◌>>=◌, ◌>>◌, pure, lift, raise, attempt, emit, degrade, send,
  subject_of, denied, submitted, rejected, accepted, not_armed, is_degraded, not_in_cache, refused,
}

-- `self._provider.security_id_for`
unfoldable pub security_id_for : Env → String → Result String
security_id_for env instrument_id = elim (env.security_ids instrument_id) [
  | none ↦ err lookup_error
  | some sid ↦ ok sid
]

-- `VenueOrderId` takes no empty text.
unfoldable pub venue_order_id : String → Result String
venue_order_id text = if str_eq text "" then err value_error else ok text

-- `VenueOrderId(str(body["orderId"]))`
unfoldable pub order_id_in : Rendering → Json → Result String
unfolding venue_order_id
order_id_in py (Json.obj fs) = elim (Json.get "orderId" fs) [
  | none ↦ err key_error
  | some v ↦ venue_order_id (py_str py v)
]
order_id_in py _ = err type_error

-- `place_payload` as both callers call it, with one of two security ids.
unfoldable pub payload_for : Env → Order → Instrument → String → Result PlacePayload
payload_for env order instrument security_id =
    place_payload env.lib order instrument security_id env.client_id env.config.product_type
      env.config.after_market_order env.config.amo_time

-- The validation of `_refusal_for`: looking the id up and building the payload once.
unfoldable pub dry_run : Env → Order → Instrument → Result PlacePayload
dry_run env order instrument =
    Exc.◌>>=◌ (security_id_for env order.instrument_id) (λ _. payload_for env order instrument "0")

-- `except (LookupError, Unsendable)`; any other exception goes through.
unfoldable pub refusal_of {ℓ} : {A : Type ℓ} → Result A → Result (Option Reason)
refusal_of (ok _) = ok none
refusal_of (err e) = if is_local_refusal e then ok (some (refused e)) else err e

-- The steps of `_refusal_for` after the gate was asked, on whether the client is degraded and on
-- the instrument from the cache.
unfoldable pub gated :
    Env → Order → Option (List Switch) → Bool → Option Instrument → Result (Option Reason)
gated env order (some missing) degraded found = ok (some (not_armed missing))
gated env order none true found = ok (some is_degraded)
gated env order none false none = ok (some not_in_cache)
gated env order none false (some instrument) = refusal_of (dry_run env order instrument)

-- `_refusal_for`
unfoldable pub refusal_for : Env → Client → Order → Option Instrument → Result (Option Reason)
refusal_for env c order found =
    gated env order (submission_refusal env.config env.live_orders_env) c.is_degraded_by_ip found

-- The handlers around the request: an unknown outcome emits nothing.
unfoldable pub on_submit_failure : Order → Exc → Action (Unit {0})
on_submit_failure order (ambiguous f) = pure tt
on_submit_failure order (ip_not_whitelisted f) =
    degrade >> emit (rejected (subject_of order) (ip_not_whitelisted f))
on_submit_failure order e =
    if is_dhan_error e then emit (rejected (subject_of order) e) else raise e

unfoldable pub submit_path : Env → String
submit_path env = if env.config.slice_over_freeze_limit then order_slicing_path else orders_path

-- The payload that is sent: the id is looked up again, and raises on its own.
unfoldable pub payload_to_send : Env → Order → Instrument → Result PlacePayload
payload_to_send env order instrument =
    Exc.◌>>=◌ (security_id_for env order.instrument_id) (payload_for env order instrument)

-- From the `OrderSubmitted` event to the end of `_submit_order`.
unfoldable pub submit_payload : Env → Order → PlacePayload → Action (Unit {0})
submit_payload env order payload = do
  emit (submitted (subject_of order))
  attempt (send env post (submit_path env) (Body.place payload)) (on_submit_failure order) λ body.
      do order_id ← lift (order_id_in env.py body); emit (accepted (subject_of order) order_id)

unfoldable pub submit_built : Env → Order → Result PlacePayload → Action (Unit {0})
submit_built env order (err e) = raise e
submit_built env order (ok payload) = submit_payload env order payload

-- What `_submit_order` does once nothing refuses the order. With no instrument there is nothing to
-- build a payload from: reading `None` raises.
unfoldable pub submit_armed : Env → Order → Option Instrument → Action (Unit {0})
submit_armed env order none = raise attribute_error
submit_armed env order (some instrument) =
    submit_built env order (payload_to_send env order instrument)

-- `_submit_order`, on what `_refusal_for` says of an instrument that was found or not.
unfoldable pub submit_decided :
    Env → Order → Option Instrument → Result (Option Reason) → Action (Unit {0})
submit_decided env order found (err e) = raise e
submit_decided env order found (ok (some why)) = emit (denied (subject_of order) why)
submit_decided env order found (ok none) = submit_armed env order found

-- `_submit_order`
unfoldable pub submit_order : Env → Order → Action (Unit {0})
submit_order env order c =
    let found = env.instrument order.instrument_id in
    submit_decided env order found (refusal_for env c order found) c
