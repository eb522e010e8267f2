-- ===== src/Dhan/Execution/Modify/Laws.antt =====
-- What a modify sends, and what it claims.
use nautilus_trader_india.Prelude.{
  String, ◌≡◌, ◌≢◌, refl, [], ◌∷◌, ◌++◌, Option, none, some, arith, ◌⊎◌, inl, inr,
}
use nautilus_trader_india.Nautilus.{Decimal, Quantity, Order, Instrument}
use nautilus_trader_india.Dhan.Json.{Json}
use nautilus_trader_india.Dhan.Exc.{Failure, Exc, Result, ok, err, ambiguous}
use nautilus_trader_india.Dhan.Http.{put, write}
use nautilus_trader_india.Dhan.Http.Laws.{write-is_dhan_error}
use nautilus_trader_india.Dhan.Orders.{ModifyPayload, modify_payload, units_for}
use nautilus_trader_india.Dhan.Execution.Client.{
  Env, Client, Subject, Request, Reason, Body, send, updated, modify_rejected, refused,
  no_venue_order_id, incomplete_terms,
}
use nautilus_trader_india.Dhan.Execution.Cancel.{order_path}
use nautilus_trader_india.Dhan.Execution.Modify.{
  ModifyCommand, modify_order, modify_named, modify_with, modify_built, on_modify_failure,
  payload_for, or_if_falsy, order_quantity, price_to_send,
}

abbrev pub put_of : String → ModifyPayload → Request
put_of v p = record { method = put; path = order_path v; body = Body.modify p }

-- What is sent for a command, on the order and the instrument of the cache: the venue id of the
-- command, the units of the quantity and the price, each of the command where it has one and else of
-- the order.
pub record Sends (env : Env) (command : ModifyCommand) (v : String) (p : ModifyPayload)
    (q : Quantity) (price : Decimal) : Type 0 where
  pub instrument : Instrument
  pub named : command.venue_order_id ≡ some v
  pub cached : env.instrument command.subject.instrument_id ≡ some instrument
  pub units : p.quantity ≡ units_for instrument q
  pub at_price : p.price ≡ price
  pub of_order : p.order_id ≡ v
  pub quantity_asked :
      or_if_falsy env.lib.truthy_quantity command.quantity
        (order_quantity (env.order command.subject.client_order_id))
      ≡ some q
  pub price_asked :
      price_to_send env.lib (env.order command.subject.client_order_id) command.price
      ≡ ok (some price)

-- Why nothing is sent: no venue id, or an instrument, a quantity or a price that is missing.
pub data Lacks (env : Env) (command : ModifyCommand) : Option String → Reason → Type 0 where
  no_id : command.venue_order_id ≡ none → Lacks env command none no_venue_order_id
  no_instrument :
      (v : String)
      → command.venue_order_id ≡ some v
      → env.instrument command.subject.instrument_id ≡ none
      → Lacks env command (some v) incomplete_terms
  no_quantity :
      (v : String)
      → command.venue_order_id ≡ some v
      → or_if_falsy env.lib.truthy_quantity command.quantity
          (order_quantity (env.order command.subject.client_order_id))
        ≡ none
      → Lacks env command (some v) incomplete_terms
  no_price :
      (v : String)
      → command.venue_order_id ≡ some v
      → price_to_send env.lib (env.order command.subject.client_order_id) command.price ≡ ok none
      → Lacks env command (some v) incomplete_terms

-- What is raised before anything is sent: by the reading of the price, or by the payload.
abbrev pub Raised : Env → ModifyCommand → Exc → Type 0
Raised env command e =
    (price_to_send env.lib (env.order command.subject.client_order_id) command.price ≡ err e)
    ⊎ ((v : String) × (i : Instrument) × (q : Quantity) × (price : Decimal)
        × (command.venue_order_id ≡ some v)
        × (env.instrument command.subject.instrument_id ≡ some i)
        × (payload_for env command v (env.order command.subject.client_order_id) i q price ≡ err e))

-- How a modify ends. `put_of v p` is the request that is sent.
pub data Modification (env : Env) (c : Client) (command : ModifyCommand)
    : Result (Unit {0}) × Client → Type 0 where
  -- Nothing was sent.
  rejects :
      (v : Option String) (why : Reason)
      → Lacks env command v why
      → Modification env c command
          (ok tt, record c { events = c.events ++ modify_rejected command.subject v why ∷ [] })
  raises : (e : Exc) → Raised env command e → Modification env c command (err e, c)
  unknown :
      (v : String) (p : ModifyPayload) (q : Quantity) (price : Decimal) (f : Failure)
      → Sends env command v p q price
      → write env.py put (order_path v) (env.venue c.sent (put_of v p)) ≡ err (ambiguous f)
      → Modification env c command (ok tt, record c { sent = c.sent ++ put_of v p ∷ [] })
  declines :
      (v : String) (p : ModifyPayload) (q : Quantity) (price : Decimal) (e : Exc)
      → Sends env command v p q price
      → write env.py put (order_path v) (env.venue c.sent (put_of v p)) ≡ err e
      → ((f : Failure) → e ≢ ambiguous f)
      → Modification env c command (
        ok tt,
        record c {
          sent = c.sent ++ put_of v p ∷ [];
          events = c.events ++ modify_rejected command.subject (some v) (refused e) ∷ [];
        },
      )
  -- The terms that are reported are those that were sent.
  confirms :
      (v : String) (p : ModifyPayload) (b : Json) (q : Quantity) (price : Decimal)
      → Sends env command v p q price
      → write env.py put (order_path v) (env.venue c.sent (put_of v p)) ≡ ok b
      → Modification env c command (
        ok tt,
        record c {
          sent = c.sent ++ put_of v p ∷ [];
          events = c.events ++ updated command.subject v q price ∷ [];
        },
      )

payload_for-terms :
    (env : Env) (command : ModifyCommand) (v : String) (order : Option Order) (i : Instrument)
    (q : Quantity) (price : Decimal) (p : ModifyPayload)
    → payload_for env command v order i q price ≡ ok p
    → (p.quantity ≡ units_for i q) × (p.price ≡ price) × (p.order_id ≡ v)
unfolding payload_for modify_payload
payload_for-terms env command v order i q price p h = ground arith

module _ (env : Env) (c : Client) (command : ModifyCommand) where
  abbrev s : Subject
  s = command.subject

  abbrev cached_order : Option Order
  cached_order = env.order s.client_order_id

  abbrev quantity_of : Option Quantity
  quantity_of = or_if_falsy env.lib.truthy_quantity command.quantity (order_quantity cached_order)

  settled :
      (v : String) (p : ModifyPayload) (q : Quantity) (price : Decimal)
      → Sends env command v p q price
      → (r : Result Json) → write env.py put (order_path v) (env.venue c.sent (put_of v p)) ≡ r
      → let c' = record c { sent = c.sent ++ put_of v p ∷ [] } in
        Modification env c command (elim r [
          | ok b ↦ (ok tt, record c' { events = c'.events ++ updated s v q price ∷ [] })
          | err e ↦ on_modify_failure s v e c'
        ])
  unfolding on_modify_failure
  settled v p q price t (ok b) w = confirms v p b q price t w
  settled v p q price t (err (ambiguous f)) w = unknown v p q price f t w
  settled v p q price t (err e) w =
      rw (write-is_dhan_error env.py (order_path v) put _ _ w)
        (declines v p q price e t w (λ f. cc))

  module _ (v : String) (named_v : command.venue_order_id ≡ some v) where
    built :
        (i : Instrument) (q : Quantity) (price : Decimal)
        → env.instrument s.instrument_id ≡ some i
        → quantity_of ≡ some q
        → price_to_send env.lib cached_order command.price ≡ ok (some price)
        → (r : Result ModifyPayload) → payload_for env command v cached_order i q price ≡ r
        → Modification env c command (modify_built env s v q price r c)
    unfolding modify_built send
    built i q price at_i at_q at_price (err e) h = raises e (inr (v, i, q, price, named_v, at_i, h))
    built i q price at_i at_q at_price (ok p) h =
        let (units, priced, of) = payload_for-terms env command v cached_order i q price p h in
        settled v p q price
          (record {
            instrument = i;
            named = named_v;
            cached = at_i;
            units = units;
            at_price = priced;
            of_order = of;
            quantity_asked = at_q;
            price_asked = at_price;
          })
          _ refl

    with_terms :
        (i : Option Instrument) (q : Option Quantity) (price : Option Decimal)
        → env.instrument s.instrument_id ≡ i
        → quantity_of ≡ q
        → price_to_send env.lib cached_order command.price ≡ ok price
        → Modification env c command (modify_with env command v cached_order i q price c)
    unfolding modify_with
    with_terms (some i) (some q) (some price) at_i at_q at_price =
        built i q price at_i at_q at_price _ refl
    with_terms (some i) (some q) none at_i at_q at_price =
        rejects (some v) incomplete_terms (no_price v named_v at_price)
    with_terms (some i) none price at_i at_q at_price =
        rejects (some v) incomplete_terms (no_quantity v named_v at_q)
    with_terms none q price at_i at_q at_price =
        rejects (some v) incomplete_terms (no_instrument v named_v at_i)

    priced :
        (r : Result (Option Decimal))
        → price_to_send env.lib cached_order command.price ≡ r
        → Modification env c command (elim r [
          | ok price ↦
              modify_with env command v cached_order
                (env.instrument s.instrument_id)
                quantity_of
                price
                c
          | err e ↦ (err e, c)
        ])
    priced (ok price) at_price = with_terms _ _ price refl refl at_price
    priced (err e) at_price = raises e (inl at_price)

  named_Modification :
      (v : Option String)
      → command.venue_order_id ≡ v
      → Modification env c command (modify_named env command v c)
  unfolding modify_named
  named_Modification none h = rejects none no_venue_order_id (no_id h)
  named_Modification (some v) h = priced v h _ refl

  -- A modify with a venue id, an instrument, a quantity and a price sends one PUT to the
  -- order of that id, unless the price or the payload raises; without one of these it is rejected
  -- and nothing is sent. It reports new terms only where the
  -- answer was read and is no failure, and then those that were sent: the price, and the quantity
  -- whose units, of the instrument in the cache, went out. It rejects where the answer was read as a failure and claims nothing
  -- where the outcome is unknown.
  pub modify_order-Modification : Modification env c command (modify_order env command c)
  unfolding modify_order
  modify_order-Modification = named_Modification command.venue_order_id refl
