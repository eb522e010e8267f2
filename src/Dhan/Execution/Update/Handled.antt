-- ===== src/Dhan/Execution/Update/Handled.antt =====
-- Which order an update is taken to be about.
use Prim.Native.String.{◌++◌ as str_append}
use nautilus_trader_india.Prelude.{
  String, ◌≡◌, ◌≢◌, ◌⊎◌, inl, inr, refl, List, [], ◌∷◌, Option, none, some, All, Bool-cases, str_eq,
  eq_iff, sym, ◌∙◌, arith,
}
use mathlib.Core.Bool.{false≢true}
use nautilus_trader_india.Nautilus.{
  Order, Library, OrderStatus, submitted, accepted, rejected, canceled, partially_filled, filled,
  expired,
}
use nautilus_trader_india.Dhan.Orders.{correlation_id, client_order_id_for}
use nautilus_trader_india.Dhan.Orders.Correlation.{find_candidate}
use nautilus_trader_india.Dhan.Orders.Correlation.Matching.{IsOneOf, found_is_sent}
use nautilus_trader_india.Dhan.OrderUpdates.{OrderUpdate}
use nautilus_trader_india.Dhan.Execution.Client.{Env, Subject}
use nautilus_trader_india.Dhan.Execution.Update.{
  Effect, ignored, emits_accepted, emits_canceled, emits_expired, emits_rejected, asks_trades,
  reason_of, trades_of, effect_on, effect_of, effect_for, handle_order_update,
}

-- What an update of each status says of an order. No fill is taken from the update itself.
pub data Says (order : Order) (s : Subject) (u : OrderUpdate) : OrderStatus → Effect → Type 0 where
  accepts : Says order s u accepted (emits_accepted s u.venue_order_id)
  cancels : Says order s u canceled (emits_canceled s u.venue_order_id)
  expires : Says order s u expired (emits_expired s u.venue_order_id)
  rejects : (why : String) → why ≢ "" → Says order s u rejected (emits_rejected s why)
  fills :
      Says order s u filled
        (asks_trades order (str_append "/v2/trades" (str_append "/" u.venue_order_id)))
  fills_part :
      Says order s u partially_filled
        (asks_trades order (str_append "/v2/trades" (str_append "/" u.venue_order_id)))
  waits : Says order s u submitted ignored

-- What an update may do: nothing where no known id was sent under what it echoes or where the order
-- is not in the cache, and else what its status says of the order in the cache.
pub data Handled (env : Env) (known_ids : List String) (u : OrderUpdate) : Effect → Type 0 where
  foreign :
      (u.correlation_id ≡ "") ⊎ All (λ id. correlation_id env.lib id ≢ u.correlation_id) known_ids
      → Handled env known_ids u ignored
  uncached :
      (id : String)
      → IsOneOf id known_ids
      → correlation_id env.lib id ≡ u.correlation_id
      → env.order id ≡ none
      → Handled env known_ids u ignored
  ours :
      (id : String) (order : Order) (effect : Effect)
      → IsOneOf id known_ids
      → correlation_id env.lib id ≡ u.correlation_id
      → env.order id ≡ some order
      → Says order
          (record {
            strategy_id = order.strategy_id;
            instrument_id = order.instrument_id;
            client_order_id = id;
          })
          u
          u.order_status
          effect
      → Handled env known_ids u effect

reason_given : (u : OrderUpdate) → reason_of u ≢ ""
unfolding reason_of
reason_given u = elim (Bool-cases (str_eq u.reason "")) [
  | inl e ↦ rw e (λ h. false≢true ((eq_iff "rejected by the venue" "").1 h))
  | inr n ↦ rw n (λ h. false≢true (sym n ∙ (eq_iff u.reason "").1 h))
]

effect_on-Says :
    (order : Order) (s : Subject) (u : OrderUpdate) (status : OrderStatus)
    → Says order s u status (effect_on order s u status)
unfolding effect_on trades_of
effect_on-Says order s u accepted = accepts
effect_on-Says order s u canceled = cancels
effect_on-Says order s u expired = expires
effect_on-Says order s u rejected = rejects (reason_of u) (reason_given u)
effect_on-Says order s u filled = fills
effect_on-Says order s u partially_filled = fills_part
effect_on-Says order s u submitted = waits

none_was_sent :
    (lib : Library) (correlation : String) (ids : List String)
    → find_candidate lib correlation ids ≡ none
    → All (λ id. correlation_id lib id ≢ correlation) ids
unfolding find_candidate
none_was_sent lib correlation [] h = tt
none_was_sent lib correlation (d ∷ ds) h =
    elim (Bool-cases (str_eq (correlation_id lib d) correlation)) [
      | inl e ↦ absurd (ground arith)
      | inr n ↦ (
        λ same. absurd (false≢true (sym n ∙ (eq_iff _ correlation).1 same)),
        none_was_sent lib correlation ds (ground arith),
      )
    ]

module _ (env : Env) (known_ids : List String) (u : OrderUpdate) where
  cached-Handled :
      (id : String) (order : Option Order)
      → env.order id ≡ order
      → IsOneOf id known_ids
      → correlation_id env.lib id ≡ u.correlation_id
      → Handled env known_ids u (effect_of id order u)
  unfolding effect_of
  cached-Handled id none h m e = uncached id m e h
  cached-Handled id (some order) h m e =
      ours id order _ m e h (effect_on-Says order _ u u.order_status)

  found-Handled :
      (found : Option String)
      → client_order_id_for env.lib u.correlation_id known_ids ≡ found
      → Handled env known_ids u (effect_for env found u)
  unfolding effect_for client_order_id_for
  found-Handled none h = foreign (elim (Bool-cases (str_eq u.correlation_id "")) [
    | inl e ↦ inl ((eq_iff u.correlation_id "").0 e)
    | inr n ↦ inr (none_was_sent env.lib u.correlation_id known_ids (ground arith))
  ])
  found-Handled (some id) h =
      let searched : find_candidate env.lib u.correlation_id known_ids ≡ some id = ground arith in
      let (m, e) = found_is_sent env.lib u.correlation_id id known_ids searched in
      cached-Handled id (env.order id) refl m e

  -- An update of the stream is acted on only for an order of our own: one whose id, as it was sent,
  -- is what the update echoes, and that is in the cache. It then makes the one event that its
  -- status calls for, under that order's ids and with a reason where it is a rejection; a fill is
  -- never taken from the update, and makes the client ask for the trades of the order that the
  -- update names. Otherwise it is ignored.
  pub handle_order_update-Handled : Handled env known_ids u (handle_order_update env known_ids u)
  unfolding handle_order_update
  handle_order_update-Handled = found-Handled _ refl
