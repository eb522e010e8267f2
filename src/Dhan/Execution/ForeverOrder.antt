-- ===== src/Dhan/Execution/ForeverOrder.antt =====
-- `submit_forever_order` and `cancel_forever_order` of nautilus_india/dhan/execution.py.
pub mod Contract
use nautilus_trader_india.Prelude.{
  String, Bool, true, false, Option, none, some, List, [], ◌∷◌, ◌⊎◌, inl, inr, if◌then◌else◌,
}
use nautilus_trader_india.Nautilus.{Order, Instrument}
use nautilus_trader_india.Dhan.Exc
use nautilus_trader_india.Dhan.Exc.{Exc, Result, ok, err, ambiguous, is_local_refusal}
use nautilus_trader_india.Dhan.Http.{post, delete}
use nautilus_trader_india.Dhan.Constants.{forever_orders_path}
use nautilus_trader_india.Dhan.Config.{Switch, submission_refusal}
use nautilus_trader_india.Dhan.ForeverOrders
use nautilus_trader_india.Dhan.ForeverOrders.{ForeverPayload}
use nautilus_trader_india.Dhan.Execution.Client.{
  Env, Client, Action, Reason, Body, ◌>>=◌, ◌>>◌, pure, lift, raise, attempt, emit, send,
  subject_of, denied, submitted, accepted, not_armed, is_degraded, not_in_cache, refused,
}
use nautilus_trader_india.Dhan.Execution.Submit.{security_id_for, order_id_in, on_submit_failure}

unfoldable pub payload_for :
    Env → Order → String → Option Order → Instrument → Result ForeverPayload
payload_for env order product_type second_leg instrument =
    Exc.◌>>=◌ (security_id_for env order.instrument_id) λ sid.
      ForeverOrders.place_payload env.lib order instrument sid env.client_id product_type second_leg

-- The gate, and the payload that is built inside the `try` once nothing refuses.
unfoldable pub gated :
    Env
    → Order
    → String
    → Option Order
    → Option (List Switch)
    → Bool
    → Option Instrument
    → Reason ⊎ Result ForeverPayload
gated env order product_type second_leg (some missing) degraded found = inl (not_armed missing)
gated env order product_type second_leg none degraded none = inl not_in_cache
gated env order product_type second_leg none true (some instrument) = inl is_degraded
gated env order product_type second_leg none false (some instrument) =
    inr (payload_for env order product_type second_leg instrument)

-- From the `OrderSubmitted` event to the end.
unfoldable pub submit_payload : Env → Order → ForeverPayload → Action (Unit {0})
submit_payload env order payload = do
  emit (submitted (subject_of order))
  attempt (send env post forever_orders_path (Body.forever_order payload)) (on_submit_failure order)
      λ body. do
        order_id ← lift (order_id_in env.py body)
        emit (accepted (subject_of order) order_id)

unfoldable pub submit_gated : Env → Order → Reason ⊎ Result ForeverPayload → Action (Unit {0})
submit_gated env order (inl why) = emit (denied (subject_of order) why)
submit_gated env order (inr (err e)) =
    if is_local_refusal e then emit (denied (subject_of order) (refused e)) else raise e
submit_gated env order (inr (ok payload)) = submit_payload env order payload

-- `submit_forever_order`
unfoldable pub submit_forever_order : Env → Order → String → Option Order → Action (Unit {0})
submit_forever_order env order product_type second_leg c =
    submit_gated env order
      (gated env order product_type second_leg (submission_refusal env.config env.live_orders_env)
        c.is_degraded_by_ip (env.instrument order.instrument_id))
      c

-- `except Ambiguous`; anything else is raised.
unfoldable pub unless_ambiguous : Exc → Action (Unit {0})
unless_ambiguous (ambiguous f) = pure tt
unless_ambiguous e = raise e

-- `cancel_forever_order`
unfoldable pub cancel_forever_order : Env → String → Action (Unit {0})
cancel_forever_order env order_id =
    attempt (send env delete (ForeverOrders.cancel_path order_id) Body.empty) unless_ambiguous
      λ _. pure tt
