-- ===== src/Dhan/Execution/Modify.antt =====
-- `_modify_order` of nautilus_india/dhan/execution.py.
pub mod Laws
use nautilus_trader_india.Prelude.{
  ℕ, String, Bool, true, false, Option, none, some, is_some, if◌then◌else◌,
}
use nautilus_trader_india.Nautilus.{
  Decimal, Quantity, Order, Instrument, Library, TimeInForce, day, read_price,
}
use nautilus_trader_india.Dhan.Exc
use nautilus_trader_india.Dhan.Exc.{Exc, Result, ok, err, ambiguous, is_dhan_error}
use nautilus_trader_india.Dhan.Http.{put}
use nautilus_trader_india.Dhan.Orders.{
  ModifyPayload, modify_payload, units_for, validity_for, order_type_for,
}
use nautilus_trader_india.Dhan.Execution.Client.{
  Env, Client, Action, Subject, Body, ◌>>=◌, pure, lift, raise, attempt, emit, send, updated,
  modify_rejected, no_venue_order_id, incomplete_terms, refused,
}
use nautilus_trader_india.Dhan.Execution.Cancel.{order_path}

pub record ModifyCommand : Type 0 where
  pub subject : Subject
  pub venue_order_id : Option String
  pub quantity : Option Quantity
  pub price : Option Decimal
  pub trigger_price : Option Decimal

-- `value or fallback`, where the truth of a value is the library's.
unfoldable pub or_if_falsy {ℓ} : {A : Type ℓ} → (A → Bool) → Option A → Option A → Option A
or_if_falsy truthy none fallback = fallback
or_if_falsy truthy (some a) fallback = if truthy a then some a else fallback

-- `order.price if order else None`
unfoldable pub order_price : Library → Option Order → Result (Option Decimal)
order_price lib none = ok none
order_price lib (some order) = read_price lib order

-- `command.price or (order.price if order else None)`: the order is read only if it is asked for.
unfoldable pub price_to_send : Library → Option Order → Option Decimal → Result (Option Decimal)
price_to_send lib order none = order_price lib order
price_to_send lib order (some p) = if lib.truthy_price p then ok (some p) else order_price lib order

abbrev pub order_quantity : Option Order → Option Quantity
order_quantity none = none
order_quantity (some order) = some order.quantity

abbrev pub order_trigger : Option Order → Option Decimal
order_trigger none = none
order_trigger (some order) = order.trigger_price

abbrev pub order_validity : Option Order → Result String
order_validity none = validity_for day
order_validity (some order) = validity_for order.time_in_force

abbrev pub type_to_send : Option Order → Result String
type_to_send none = ok "LIMIT"
type_to_send (some order) = order_type_for order.order_type

-- The payload of a modify whose terms are complete.
unfoldable pub payload_for :
    Env
    → ModifyCommand
    → String
    → Option Order
    → Instrument
    → Quantity
    → Decimal
    → Result ModifyPayload
payload_for env command venue_order_id order instrument quantity price =
    Exc.◌>>=◌ (order_validity order) λ validity. Exc.◌>>=◌ (type_to_send order) λ order_type.
      modify_payload venue_order_id env.client_id (units_for instrument quantity) price
        (or_if_falsy env.lib.truthy_price command.trigger_price (order_trigger order)) validity
        order_type ""

-- `_reject_modify` for an answer that was read; an unknown outcome emits nothing.
unfoldable pub on_modify_failure : Subject → String → Exc → Action (Unit {0})
on_modify_failure subject venue_order_id (ambiguous f) = pure tt
on_modify_failure subject venue_order_id e =
    if is_dhan_error e
    then emit (modify_rejected subject (some venue_order_id) (refused e))
    else raise e

unfoldable pub modify_built :
    Env → Subject → String → Quantity → Decimal → Result ModifyPayload → Action (Unit {0})
modify_built env subject venue_order_id quantity price (err e) = raise e
modify_built env subject venue_order_id quantity price (ok payload) =
    attempt (send env put (order_path venue_order_id) (Body.modify payload))
      (on_modify_failure subject venue_order_id)
      λ _. emit (updated subject venue_order_id quantity price)

-- The terms, once the price was read: the three that a modify cannot go without.
unfoldable pub modify_with :
    Env
    → ModifyCommand
    → String
    → Option Order
    → Option Instrument
    → Option Quantity
    → Option Decimal
    → Action (Unit {0})
modify_with env command v order (some instrument) (some quantity) (some price) =
    modify_built env command.subject v quantity price
      (payload_for env command v order instrument quantity price)
modify_with env command v order _ _ _ =
    emit (modify_rejected command.subject (some v) incomplete_terms)

unfoldable pub modify_named : Env → ModifyCommand → Option String → Action (Unit {0})
modify_named env command none = emit (modify_rejected command.subject none no_venue_order_id)
modify_named env command (some v) = do
  let order = env.order command.subject.client_order_id
  price ← lift (price_to_send env.lib order command.price)
  modify_with env command v order (env.instrument command.subject.instrument_id)
      (or_if_falsy env.lib.truthy_quantity command.quantity (order_quantity order)) price

-- `_modify_order`
unfoldable pub modify_order : Env → ModifyCommand → Action (Unit {0})
unfolding modify_named
modify_order env command = modify_named env command command.venue_order_id
