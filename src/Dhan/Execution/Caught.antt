-- ===== src/Dhan/Execution/Caught.antt =====
-- What the building of a payload may raise is what the handler of `_refusal_for` catches.
use nautilus_trader_india.Prelude.{
  String, ◌≡◌, refl, Bool, true, false, List, Option, none, some, Bool-cases, inl, inr,
}
use nautilus_trader_india.Nautilus.{
  Order, Instrument, OrderType, limit, TimeInForce, gtc, OrderSide, buy, sell, no_order_side,
}
use nautilus_trader_india.Dhan.Exc
use nautilus_trader_india.Dhan.Exc.{
  Exc, Result, ok, err, ambiguous, is_local_refusal, lookup_error, Refusal, unsendable,
  bad_amo_time, no_segment, no_trigger, raise_if,
}
use nautilus_trader_india.Dhan.Orders.{
  place_payload, order_type_for, side_name, segment_name, checked, validity_for,
}
use nautilus_trader_india.Dhan.Orders.Payload.{amo_field}
use nautilus_trader_india.Dhan.Constants.{segment_names, is_member, amo_times}
use nautilus_trader_india.Dhan.Execution.Client.{Env}
use nautilus_trader_india.Dhan.Execution.Submit.{payload_for}

-- Every exception that `r` may hold is one that the handler of `_refusal_for` catches.
abbrev pub IsCaught {ℓ} : {A : Type ℓ} → Result A → Type 0
IsCaught (ok a) = Unit
IsCaught (err e) = is_local_refusal e ≡ true

pub IsCaught-bind {ℓ κ} :
    {A : Type ℓ} {B : Type κ} (m : Result A) (f : A → Result B)
    → IsCaught m
    → ((a : A) → IsCaught (f a))
    → IsCaught (Exc.◌>>=◌ m f)
IsCaught-bind (ok a) f hm hf = hf a
IsCaught-bind (err e) f hm hf = hm

named_or_refused :
    (o : Option String)
    → IsCaught {A = String} (elim o [ none ↦ err (unsendable no_segment) | some name ↦ ok name ])
unfolding is_local_refusal
named_or_refused none = refl
named_or_refused (some name) = tt

module _ (env : Env) (order : Order) (instrument : Instrument) where
  order_type_for-IsCaught : (t : OrderType) → IsCaught (order_type_for t)
  unfolding order_type_for is_local_refusal
  order_type_for-IsCaught (OrderType.other n) = refl
  order_type_for-IsCaught limit = tt
  order_type_for-IsCaught _ = tt

  validity_for-IsCaught : (t : TimeInForce) → IsCaught (validity_for t)
  unfolding validity_for is_local_refusal
  validity_for-IsCaught (TimeInForce.other n) = refl
  validity_for-IsCaught gtc = tt
  validity_for-IsCaught _ = tt

  side_name-IsCaught : (s : OrderSide) → IsCaught (side_name s)
  unfolding side_name is_local_refusal
  side_name-IsCaught no_order_side = refl
  side_name-IsCaught buy = tt
  side_name-IsCaught sell = tt

  checked-IsCaught :
      (v : String) (allowed : List String) (r : Refusal) → IsCaught (checked v allowed r)
  unfolding checked is_local_refusal
  checked-IsCaught v allowed r = elim (Bool-cases (is_member v allowed)) [
    | inl e ↦ rw e tt
    | inr e ↦ rw e refl
  ]

  segment_name-IsCaught : IsCaught (segment_name instrument)
  unfolding segment_name is_local_refusal
  segment_name-IsCaught = named_or_refused (segment_names _)

  amo_field-IsCaught : (amo : Bool) (time : String) → IsCaught (amo_field amo time)
  unfolding amo_field
  amo_field-IsCaught true time =
      IsCaught-bind (checked time amo_times bad_amo_time) _ (checked-IsCaught _ _ _) (λ _. tt)
  amo_field-IsCaught false time = tt

  raise_if-IsCaught : (b : Bool) (r : Refusal) → IsCaught (raise_if b (unsendable r))
  unfolding is_local_refusal
  raise_if-IsCaught true r = refl
  raise_if-IsCaught false r = tt

  -- Whatever a payload refuses, the handler catches.
  pub payload_for-IsCaught : (sid : String) → IsCaught (payload_for env order instrument sid)
  unfolding payload_for place_payload
  payload_for-IsCaught sid = IsCaught-bind _ _ (order_type_for-IsCaught order.order_type) λ t.
      IsCaught-bind _ _ (raise_if-IsCaught _ no_trigger) λ _.
        IsCaught-bind _ _ (side_name-IsCaught order.side) λ s.
          IsCaught-bind _ _ segment_name-IsCaught λ g.
            IsCaught-bind _ _ (checked-IsCaught _ _ _) λ p.
              IsCaught-bind _ _ (validity_for-IsCaught order.time_in_force) λ v.
                IsCaught-bind _ _
                  (amo_field-IsCaught env.config.after_market_order env.config.amo_time) λ a. tt
