-- ===== src/Dhan/Execution/OrderList.antt =====
-- `_submit_order_list` and `_super_order_refusal` of nautilus_india/dhan/execution.py: a bracket goes
-- out as one super order. Log lines are left out.
pub mod Contract
pub mod Reported
use nautilus_trader_india.Prelude.{
  String, Bool, true, false, Option, none, some, List, [], ◌∷◌, map, if◌then◌else◌,
}
use nautilus_trader_india.Nautilus.{Order, Instrument}
use nautilus_trader_india.Dhan.Exc
use nautilus_trader_india.Dhan.Exc.{
  Exc, Result, ok, err, ambiguous, ip_not_whitelisted, value_error, attribute_error, index_error,
  is_dhan_error,
}
use nautilus_trader_india.Dhan.Http.{post}
use nautilus_trader_india.Dhan.Constants.{super_orders_path, leg_entry, leg_target, leg_stop_loss}
use nautilus_trader_india.Dhan.Config.{Switch, submission_refusal}
use nautilus_trader_india.Dhan.SuperOrders
use nautilus_trader_india.Dhan.SuperOrders.{SuperPayload, leg_venue_order_id}
use nautilus_trader_india.Dhan.Execution.Client.{
  Env, Client, Action, Event, Reason, Body, ◌>>=◌, ◌>>◌, pure, lift, raise, attempt, emit_all,
  degrade, send, subject_of, denied, submitted, rejected, accepted, not_armed, is_degraded,
  not_in_cache, not_a_bracket,
}
use nautilus_trader_india.Dhan.Execution.Submit.{security_id_for, order_id_in, refusal_of}

-- The list's orders, and Nautilus's word for whether they are a bracket.
pub record OrderList : Type 0 where
  pub orders : List Order
  pub is_bracket : Bool

-- `legs[0]`, `legs[1]` and `legs[2]`
unfoldable pub three_legs : List Order → Result (Order × Order × Order)
three_legs (entry ∷ target ∷ stop_loss ∷ rest) = ok (entry, target, stop_loss)
three_legs _ = err index_error

-- The super order of a list, with one of two security ids.
unfoldable pub payload_for_list : Env → List Order → Instrument → String → Result SuperPayload
payload_for_list env orders instrument security_id =
    Exc.◌>>=◌ (three_legs orders) λ (entry, target, stop_loss).
      SuperOrders.place_payload env.lib entry target stop_loss instrument security_id env.client_id
        env.config.product_type "0"

unfoldable pub dry_run : Env → Order → List Order → Instrument → Result SuperPayload
dry_run env entry orders instrument =
    Exc.◌>>=◌ (security_id_for env entry.instrument_id)
      (λ _. payload_for_list env orders instrument "0")

-- `_super_order_refusal` after the gate was asked.
unfoldable pub gated :
    Env
    → Order
    → OrderList
    → Option (List Switch)
    → Bool
    → Option Instrument
    → Result (Option Reason)
gated env entry list (some missing) degraded found = ok (some (not_armed missing))
gated env entry list none true found = ok (some is_degraded)
gated env entry list none false found =
    if list.is_bracket
    then elim found [
      | none ↦ ok (some not_in_cache)
      | some instrument ↦ refusal_of (dry_run env entry list.orders instrument)
    ]
    else ok (some not_a_bracket)

-- The handlers around the request, for all three orders.
unfoldable pub on_list_failure : List Order → Exc → Action (Unit {0})
on_list_failure orders (ambiguous f) = pure tt
on_list_failure orders (ip_not_whitelisted f) =
    degrade >> emit_all (map (λ o. rejected (subject_of o) (ip_not_whitelisted f)) orders)
on_list_failure orders e =
    if is_dhan_error e then emit_all (map (λ o. rejected (subject_of o) e) orders) else raise e

-- `zip(orders_in_list, legs, strict=True)`: what is accepted, and whether the lengths agreed.
unfoldable pub accept_legs : String → List Order → List String → List Event × Result (Unit {0})
accept_legs order_id [] [] = ([], ok tt)
accept_legs order_id (o ∷ orders) (leg ∷ legs) =
    let (events, r) = accept_legs order_id orders legs in
    (accepted (subject_of o) (leg_venue_order_id order_id leg) ∷ events, r)
accept_legs order_id _ _ = ([], err value_error)

abbrev pub legs : List String
legs = leg_entry ∷ leg_target ∷ leg_stop_loss ∷ []

unfoldable pub accept_all : List Order → String → Action (Unit {0})
accept_all orders order_id = do
  let accepts = accept_legs order_id orders legs
  emit_all accepts.0
  lift accepts.1

-- From the `OrderSubmitted` events to the end.
unfoldable pub submit_payload : Env → List Order → SuperPayload → Action (Unit {0})
submit_payload env orders payload = do
  emit_all (map (λ o. submitted (subject_of o)) orders)
  attempt (send env post super_orders_path (Body.super_order payload)) (on_list_failure orders)
      λ body. do order_id ← lift (order_id_in env.py body); accept_all orders order_id

unfoldable pub submit_built : Env → List Order → Result SuperPayload → Action (Unit {0})
submit_built env orders (err e) = raise e
submit_built env orders (ok payload) = submit_payload env orders payload

unfoldable pub payload_to_send : Env → Order → List Order → Instrument → Result SuperPayload
payload_to_send env entry orders instrument =
    Exc.◌>>=◌ (security_id_for env entry.instrument_id) (payload_for_list env orders instrument)

unfoldable pub submit_armed : Env → Order → List Order → Option Instrument → Action (Unit {0})
submit_armed env entry orders none = raise attribute_error
submit_armed env entry orders (some instrument) =
    submit_built env orders (payload_to_send env entry orders instrument)

unfoldable pub submit_decided :
    Env → Order → List Order → Option Instrument → Result (Option Reason) → Action (Unit {0})
submit_decided env entry orders found (err e) = raise e
submit_decided env entry orders found (ok (some why)) =
    emit_all (map (λ o. denied (subject_of o) why) orders)
submit_decided env entry orders found (ok none) = submit_armed env entry orders found

unfoldable pub submit_from : Env → OrderList → List Order → Action (Unit {0})
submit_from env list [] c = raise index_error c
submit_from env list (entry ∷ rest) c =
    let found = env.instrument entry.instrument_id in
    submit_decided env entry list.orders found
      (gated env entry list (submission_refusal env.config env.live_orders_env) c.is_degraded_by_ip
        found)
      c

-- `_submit_order_list`
unfoldable pub submit_order_list : Env → OrderList → Action (Unit {0})
unfolding submit_from
submit_order_list env list = submit_from env list list.orders
