-- ===== src/Dhan/Execution/Cancel/Laws.antt =====
-- What a cancel claims about the order, and what cancelling every open order sends.
use nautilus_trader_india.Prelude.{
  String, ◌≡◌, ◌≢◌, refl, List, [], ◌∷◌, ◌++◌, map, Option, none, some, sym, subst, ◌∙◌, ap, ◌⊎◌,
  inl, inr, Bool-cases, true, false,
}
use mathlib.Core.List.{append_assoc, append-nil}
use nautilus_trader_india.Nautilus.{Order, OrderSide, buy, sell, no_order_side}
use nautilus_trader_india.Dhan.Json.{Json}
use nautilus_trader_india.Dhan.Exc.{Failure, Exc, Result, ok, err, ambiguous}
use nautilus_trader_india.Dhan.Http.{delete, write}
use nautilus_trader_india.Dhan.Http.Laws.{write-is_dhan_error}
use nautilus_trader_india.Dhan.Execution.Client.{
  Env, Client, Subject, Request, Body, >>=-eq_of_ok, send, canceled, cancel_rejected, refused,
}
use nautilus_trader_india.Dhan.Execution.Cancel.{
  cancel_order, on_cancel_failure, order_path, cancel_each, cancel_all_orders, client_order_id_for,
  open_venue_order_ids, venue_ids_on,
}
use nautilus_trader_india.Dhan.SuperOrders.{is_side}

abbrev pub delete_of : String → Request
delete_of v = record { method = delete; path = order_path v; body = Body.empty }

-- One DELETE was sent, and its answer decides what is claimed.
pub data Cancellation (env : Env) (c : Client) (s : Subject) (v : String)
    : Result (Unit {0}) × Client → Type 0 where
  unknown :
      (f : Failure)
      → write env.py delete (order_path v) (env.venue c.sent (delete_of v)) ≡ err (ambiguous f)
      → Cancellation env c s v (ok tt, record c { sent = c.sent ++ delete_of v ∷ [] })
  declines :
      (e : Exc)
      → write env.py delete (order_path v) (env.venue c.sent (delete_of v)) ≡ err e
      → ((f : Failure) → e ≢ ambiguous f)
      → Cancellation env c s v (
        ok tt,
        record c {
          sent = c.sent ++ delete_of v ∷ [];
          events = c.events ++ cancel_rejected s (some v) (refused e) ∷ [];
        },
      )
  confirms :
      (b : Json)
      → write env.py delete (order_path v) (env.venue c.sent (delete_of v)) ≡ ok b
      → Cancellation env c s v (
        ok tt,
        record c { sent = c.sent ++ delete_of v ∷ []; events = c.events ++ canceled s v ∷ [] },
      )

module _ (env : Env) (s : Subject) where
  settled :
      (c : Client) (v : String) (r : Result Json)
      → write env.py delete (order_path v) (env.venue c.sent (delete_of v)) ≡ r
      → let c' = record c { sent = c.sent ++ delete_of v ∷ [] } in
        Cancellation env c s v (elim r [
          | ok b ↦ (ok tt, record c' { events = c'.events ++ canceled s v ∷ [] })
          | err e ↦ on_cancel_failure s v e c'
        ])
  unfolding on_cancel_failure
  settled c v (ok b) w = confirms b w
  settled c v (err (ambiguous f)) w = unknown f w
  settled c v (err e) w =
      rw (write-is_dhan_error env.py (order_path v) delete _ _ w) (declines e w (λ f. cc))

  -- A cancel that names an order sends one DELETE. It claims the order cancelled only where the
  -- answer was read and is no failure, rejects the cancel where the answer was read as one, and
  -- claims nothing where the outcome is unknown. It never raises.
  pub cancel_order-Cancellation :
      (c : Client) (v : String) → Cancellation env c s v (cancel_order env s (some v) c)
  unfolding cancel_order send
  cancel_order-Cancellation c v = settled c v _ refl

Cancellation-sent :
    {env : Env} {c : Client} {s : Subject} {v : String} {out : Result (Unit {0}) × Client}
    → Cancellation env c s v out
    → (out.0 ≡ ok tt) × (out.1.sent ≡ c.sent ++ delete_of v ∷ [])
Cancellation-sent (unknown f w) = (refl, refl)
Cancellation-sent (declines e w n) = (refl, refl)
Cancellation-sent (confirms b w) = (refl, refl)

cancel_each-sent :
    (env : Env) (strategy_id instrument_id : String) (vs : List String) (c : Client)
    → let out = cancel_each env strategy_id instrument_id vs c in
      (out.0 ≡ ok tt) × (out.1.sent ≡ c.sent ++ map delete_of vs)
unfolding cancel_each
cancel_each-sent env strategy_id instrument_id [] c = (refl, sym (append-nil c.sent))
cancel_each-sent env strategy_id instrument_id (v ∷ vs) c =
    let s : Subject = record {
      strategy_id = strategy_id;
      instrument_id = instrument_id;
      client_order_id = client_order_id_for env v;
    } in
    let c' = (cancel_order env s (some v) c).1 in
    let (done, one) = Cancellation-sent (cancel_order-Cancellation env s c v) in
    let (rest_done, rest) = cancel_each-sent env strategy_id instrument_id vs c' in
    subst
      (λ (out : Result (Unit {0}) × Client).
        (out.0 ≡ ok tt) × (out.1.sent ≡ c.sent ++ map delete_of (v ∷ vs)))
      (sym (
        >>=-eq_of_ok (cancel_order env s (some v))
          (λ _. cancel_each env strategy_id instrument_id vs) c tt done))
      (rest_done, rest ∙ ap (λ sent. sent ++ map delete_of vs) one ∙ append_assoc c.sent _ _)

-- The venue ids to cancel, described one order at a time: those of the orders that have one and
-- are on the side asked for, which no side asks of none.
pub data Asked (side : OrderSide) : List Order → List String → Type 0 where
  all_asked : Asked side [] []
  takes :
      (o : Order) (orders : List Order) (v : String) (vs : List String)
      → o.venue_order_id ≡ some v
      → (side ≡ no_order_side) ⊎ (o.side ≡ side)
      → Asked side orders vs
      → Asked side (o ∷ orders) (v ∷ vs)
  passes_unsent :
      (o : Order) (orders : List Order) (vs : List String)
      → o.venue_order_id ≡ none
      → Asked side orders vs
      → Asked side (o ∷ orders) vs
  passes_side :
      (o : Order) (orders : List Order) (vs : List String)
      → side ≢ no_order_side
      → o.side ≢ side
      → Asked side orders vs
      → Asked side (o ∷ orders) vs

is_side-eq : (a b : OrderSide) → is_side a b ≡ true → a ≡ b
unfolding is_side
is_side-eq buy buy h = refl
is_side-eq sell sell h = refl
is_side-eq no_order_side no_order_side h = refl
is_side-eq buy sell h = absurd (cc)
is_side-eq buy no_order_side h = absurd (cc)
is_side-eq sell buy h = absurd (cc)
is_side-eq sell no_order_side h = absurd (cc)
is_side-eq no_order_side buy h = absurd (cc)
is_side-eq no_order_side sell h = absurd (cc)

is_side_refl : (a : OrderSide) → is_side a a ≡ true
unfolding is_side
is_side_refl buy = refl
is_side_refl sell = refl
is_side_refl no_order_side = refl

is_side-ne : (a b : OrderSide) → is_side a b ≡ false → a ≢ b
is_side-ne a b h e =
    let same : is_side a b ≡ true = subst (λ x. is_side a x ≡ true) e (is_side_refl a) in cc

with_id-Asked :
    (side : OrderSide) (o : Order) (orders : List Order) (vs : List String) (v : Option String)
    → o.venue_order_id ≡ v
    → (side ≡ no_order_side) ⊎ (o.side ≡ side)
    → Asked side orders vs
    → Asked side (o ∷ orders) (elim v [ none ↦ vs | some x ↦ x ∷ vs ])
with_id-Asked side o orders vs none e on rest = passes_unsent o orders vs e rest
with_id-Asked side o orders vs (some x) e on rest = takes o orders x vs e on rest

venue_ids_on-Asked :
    (side : OrderSide) (orders : List Order) → Asked side orders (venue_ids_on side orders)
unfolding venue_ids_on
venue_ids_on-Asked side [] = all_asked
venue_ids_on-Asked side (o ∷ orders) =
    let rest = venue_ids_on-Asked side orders in
    elim (Bool-cases (is_side side no_order_side)) [
      | inl any ↦ rw any (
          with_id-Asked side o orders _ o.venue_order_id refl
            (inl (is_side-eq side no_order_side any)) rest)
      | inr one ↦ elim (Bool-cases (is_side o.side side)) [
        | inl on ↦ rw one (
            rw on (
              with_id-Asked side o orders _ o.venue_order_id refl (inr (is_side-eq o.side side on))
                rest))
        | inr off ↦ rw one (
            rw off (
              passes_side o orders _ (is_side-ne side no_order_side one)
                (is_side-ne o.side side off) rest))
      ]
    ]

-- Cancelling every open order sends one DELETE for each open order of the cache that has a venue id
-- and is on the side asked for, in the order of the cache, and nothing else; and it never raises,
-- so that no failure of one cancel keeps a later one from being sent.
pub cancel_all_orders-sent :
    (env : Env) (strategy_id instrument_id : String) (side : OrderSide) (c : Client)
    → let out = cancel_all_orders env strategy_id instrument_id side c in
      (out.0 ≡ ok tt)
      × ((vs : List String) × Asked side (env.orders_open instrument_id) vs
          × (out.1.sent ≡ c.sent ++ map delete_of vs))
unfolding cancel_all_orders open_venue_order_ids
cancel_all_orders-sent env strategy_id instrument_id side c =
    let (done, sent) = cancel_each-sent env strategy_id instrument_id _ c in
    let asked = venue_ids_on-Asked side (env.orders_open instrument_id) in
    (done, (venue_ids_on side (env.orders_open instrument_id), asked, sent))
