-- ===== src/Examples/PlaceOneOrder/Sent.antt =====
-- What the strategy of examples/dhan_execution.py sends.
use mathlib.Core.List.{append-nil}
use nautilus_trader_india.Prelude.{
  String, ◌≡◌, refl, ap, ◌∙◌, Bool, true, none, some, List, [], ◌∷◌, ◌++◌, map, ◌⊎◌, inl, inr,
  arith, Option-cases,
}
use nautilus_trader_india.Nautilus.{Decimal, Instrument, Library, no_order_side}
use nautilus_trader_india.Core.Fees.{int_of_quantity}
use nautilus_trader_india.Dhan.Exc.{Result, ok}
use nautilus_trader_india.Dhan.Config.{submission_refusal, submission_refusal-none}
use nautilus_trader_india.Dhan.Constants.{validity_day, side_buy, order_type_limit}
use nautilus_trader_india.Dhan.Orders.{PlacePayload, place_payload}
use nautilus_trader_india.Dhan.Orders.Units.{units_for}
use nautilus_trader_india.Dhan.Orders.Correlation.{
  correlation_id, matches_safe, is_safe, is_safe_rest,
}
use nautilus_trader_india.Dhan.Orders.Payload.{
  order_type_for, needs_price, needs_trigger, side_name, validity_for,
}
use nautilus_trader_india.Dhan.Orders.Payload.Sends.{place_payload-Sends}
use nautilus_trader_india.Dhan.Execution.Client.{Env, Client, Event, Reason, Request, Body, Subject}
use nautilus_trader_india.Dhan.Execution.Commands
use nautilus_trader_india.Dhan.Execution.Commands.{posts, posts-append, is_post}
use nautilus_trader_india.Dhan.Execution.Shut.{IsArmed, execute_all-StaysShut}
use nautilus_trader_india.Dhan.Execution.Submission.{
  Submission, refuses, unknown, declines, acknowledges, breaks,
}
use nautilus_trader_india.Dhan.Execution.Submit.{submit_order, payload_for}
use nautilus_trader_india.Dhan.Execution.Submitted.{IsPayloadFor, submit_order-Submission}
use nautilus_trader_india.Dhan.Execution.Cancel.Laws.{cancel_all_orders-sent, delete_of}
use nautilus_trader_india.Examples.{OneOrder}
use nautilus_trader_india.Examples.PlaceOneOrder.{one_order, on_stop}

posts-deletes : (vs : List String) → posts (map delete_of vs) ≡ []
unfolding posts
posts-deletes [] = refl
posts-deletes (v ∷ vs) = ground (arith, posts-deletes vs)

-- One more order went out, or none.
abbrev pub OneMore : (Request → Type 0) → Client → Client → Type 0
OneMore P c d =
    (posts d.sent ≡ posts c.sent) ⊎ ((r : Request) × P r × (posts d.sent ≡ posts c.sent ++ r ∷ []))

posts_one : (r : Request) → is_post r.method ≡ true → posts (r ∷ []) ≡ r ∷ []
unfolding posts
posts_one r h = rw h refl

posts-sent :
    (c : Client) (r : Request)
    → is_post r.method ≡ true
    → posts (c.sent ++ r ∷ []) ≡ posts c.sent ++ r ∷ []
posts-sent c r h = posts-append c.sent (r ∷ []) ∙ ap (λ ys. posts c.sent ++ ys) (posts_one r h)

-- A submission sends one order at most.
Submission-OneMore :
    {env : Env} {c : Client} {path : String} {Fits : Body → Type 0} {Denies : Reason → Type 0}
    {subjects : List Subject} {accepts : String → List Event} {out : Result (Unit {0}) × Client}
    → Submission env c path Fits Denies subjects accepts out
    → OneMore (λ r. Fits r.body) c out.1
Submission-OneMore (refuses why _) = inl refl
Submission-OneMore {env} {c} (unknown r e fits _) =
    inr (r, fits, posts-sent c r (ap (λ r. is_post r.method) e))
Submission-OneMore {env} {c} (declines r x e fits _ _ _) =
    inr (r, fits, posts-sent c r (ap (λ r. is_post r.method) e))
Submission-OneMore {env} {c} (acknowledges r b i e fits _ _ _) =
    inr (r, fits, posts-sent c r (ap (λ r. is_post r.method) e))
Submission-OneMore {env} {c} (breaks r b x e fits _ _ _) =
    inr (r, fits, posts-sent c r (ap (λ r. is_post r.method) e))

-- One lot of the instrument, to buy at the price that was named and for the day, under the
-- strategy's own id; both switches are set.
pub record IsTheOrder (env : Env) (config : OneOrder) (price_from : String → Result Decimal)
    (r : Request) : Type 0 where
  pub instrument : Instrument
  pub price : Decimal
  pub payload : PlacePayload
  pub is_body : r.body ≡ Body.place payload
  pub is_cached : env.instrument config.instrument_id ≡ some instrument
  pub is_read : price_from config.limit_price ≡ ok price
  pub one_lot : payload.quantity ≡ int_of_quantity instrument.multiplier
  pub at_price : payload.price ≡ some price
  pub untriggered : payload.trigger_price ≡ none
  pub is_limit : payload.order_type ≡ order_type_limit
  pub for_day : payload.validity ≡ validity_day
  pub buys : payload.transaction_type ≡ side_buy
  pub own_id : payload.correlation_id ≡ "example-1"
  pub armed : IsArmed env

one_order-fields :
    (lib : Library) (config : OneOrder) (strategy_id : String) (price : Decimal)
    (instrument : Instrument) (security_id client_id product : String) (amo : Bool)
    (amo_time : String) (p : PlacePayload)
    → place_payload lib
        (one_order config strategy_id price)
        instrument
        security_id
        client_id
        product
        amo
        amo_time
      ≡ ok p
    → (p.order_type ≡ order_type_limit)
      × (p.validity ≡ validity_day)
      × (p.transaction_type ≡ side_buy)
unfolding place_payload order_type_for side_name validity_for one_order
one_order-fields lib config strategy_id price instrument security_id client_id product amo amo_time
      p h =
    ground arith

own_id_sent : (lib : Library) → correlation_id lib "example-1" ≡ "example-1"
unfolding correlation_id matches_safe is_safe is_safe_rest
own_id_sent lib = refl

one_lot_sent :
    (instrument : Instrument)
    → units_for instrument (record { coefficient = 1; places = 0 })
      ≡ int_of_quantity instrument.multiplier
unfolding units_for int_of_quantity
one_lot_sent instrument = ground arith

-- The stop sends no order.
pub on_stop-no_post :
    (env : Env) (config : OneOrder) (strategy_id : String) (c : Client)
    → posts (on_stop env config strategy_id c).sent ≡ posts c.sent
unfolding on_stop
on_stop-no_post env config strategy_id c =
    let (done, (ids, asked, sent)) =
      cancel_all_orders-sent env strategy_id config.instrument_id no_order_side c in
    ap posts sent
    ∙ posts-append c.sent (map delete_of ids)
    ∙ ap (λ ys. posts c.sent ++ ys) (posts-deletes ids)
    ∙ append-nil (posts c.sent)

module _ (env : Env) (config : OneOrder) (strategy_id : String)
    (price_from : String → Result Decimal) where
  abbrev pub IsIt : Request → Type 0
  IsIt = IsTheOrder env config price_from

  IsPayloadFor-IsIt :
      (price : Decimal) (r : Request)
      → price_from config.limit_price ≡ ok price
      → IsArmed env
      → IsPayloadFor env (one_order config strategy_id price) r.body
      → IsIt r
  unfolding payload_for one_order needs_price needs_trigger
  IsPayloadFor-IsIt price r read armed (instrument, sid, p, found, _, built, body) =
      let sends =
        place_payload-Sends env.lib (one_order config strategy_id price) instrument sid
          env.client_id env.config.product_type env.config.after_market_order env.config.amo_time p
          built in
      let (kind, valid, side) =
        one_order-fields env.lib config strategy_id price instrument sid env.client_id
          env.config.product_type env.config.after_market_order env.config.amo_time p built in
      record {
        instrument = instrument;
        price = price;
        payload = p;
        is_body = body;
        is_cached = found;
        is_read = read;
        one_lot = sends.units ∙ one_lot_sent instrument;
        at_price = sends.price_if_limit;
        untriggered = sends.trigger_if_stop;
        is_limit = kind;
        for_day = valid;
        buys = side;
        own_id = sends.sent_id ∙ own_id_sent env.lib;
        armed = armed;
      }

  -- A client that is asked to submit the order sends it once, or nothing.
  pub submit_order-OneMore :
      (price : Decimal)
      → price_from config.limit_price ≡ ok price
      → (c : Client) → OneMore IsIt c (submit_order env (one_order config strategy_id price) c).1
  submit_order-OneMore price read c =
      let order = one_order config strategy_id price in
      elim (Option-cases (submission_refusal env.config env.live_orders_env)) [
        | inl set ↦
            let armed = (submission_refusal-none env.config env.live_orders_env).0 set in
            elim (Submission-OneMore (submit_order-Submission env order c)) [
              | inl none_sent ↦ inl none_sent
              | inr (r, fits, one) ↦ inr (r, IsPayloadFor-IsIt price r read armed fits, one)
            ]
        | inr (names, unset) ↦
            let unarmed : ¬ IsArmed env = λ armed.
              let shut = (submission_refusal-none env.config env.live_orders_env).1 armed in
              absurd (cc) in
            inl (
              unfold Commands.execute_all Commands.execute in
              (execute_all-StaysShut env (Commands.submit order ∷ []) c (inl unarmed)).no_post)
      ]
