-- ===== src/Dhan/Execution/Submitted.antt =====
-- `_submit_order` keeps the contract of a submission.
use nautilus_trader_india.Prelude.{
  String, ◌≡◌, refl, Bool, true, false, List, [], ◌∷◌, Option, none, some, arith, sym, subst,
  fun_ext, Option-cases, inl, inr,
}
use nautilus_trader_india.Nautilus.{Order, Instrument}
use nautilus_trader_india.Dhan.Exc.{Exc, Result, ok, err, ambiguous, is_local_refusal, lookup_error}
use nautilus_trader_india.Dhan.Orders.{PlacePayload}
use nautilus_trader_india.Dhan.Orders.Payload.Sends.{place_payload_any_id}
use nautilus_trader_india.Dhan.Http.{post}
use nautilus_trader_india.Dhan.Config.{Switch, submission_refusal}
use nautilus_trader_india.Dhan.Execution.Client.{
  Env, Client, Event, Reason, Body, subject_of, accepted, attempt, send, Action, lift, emit_all,
  refused, not_armed, is_degraded, not_in_cache, ◌>>=◌,
}
use nautilus_trader_india.Dhan.Execution.Submit.{
  submit_order, submit_decided, submit_armed, submit_built, submit_payload, submit_path,
  refusal_for, gated, refusal_of, dry_run, payload_for, payload_to_send, security_id_for,
  on_submit_failure, order_id_in,
}
use nautilus_trader_india.Dhan.Execution.Caught.{IsCaught, IsCaught-bind, payload_for-IsCaught}
use nautilus_trader_india.Dhan.Execution.Submission.{
  Submission, Denial, unarmed, degraded, uncached, unsound, refuses, on_failure,
  exchange-Submission, submitting,
}

-- The payload that goes out for an order: built for the instrument in the cache and the id in the
-- provider's map.
abbrev pub IsPayloadFor : Env → Order → Body → Type 0
IsPayloadFor env order body =
    (instrument : Instrument) × (sid : String) × (p : PlacePayload) × (env.instrument
        order.instrument_id
      ≡ some instrument)
    × (env.security_ids order.instrument_id ≡ some sid)
    × (payload_for env order instrument sid ≡ ok p)
    × (body ≡ Body.place p)

abbrev pub accepted_as : Order → String → List Event
accepted_as order order_id = accepted (subject_of order) order_id ∷ []

-- The handlers of `_submit_order` are those of the contract, at one order.
pub on_submit_failure-eq :
    (order : Order) (e : Exc) → on_submit_failure order e ≡ on_failure (subject_of order ∷ []) e
unfolding on_submit_failure on_failure
on_submit_failure-eq order (ambiguous f) = refl
on_submit_failure-eq order _ = refl

-- A dry run that succeeds has found the id, and the payload can be built with it too.
dry_run-ok :
    (env : Env) (order : Order) (instrument : Instrument) (p : PlacePayload)
    → dry_run env order instrument ≡ ok p
    → (sid : String) × (env.security_ids order.instrument_id ≡ some sid)
      × (payload_for env order instrument sid ≡ ok (record p { security_id = sid }))
      × (payload_to_send env order instrument ≡ ok (record p { security_id = sid }))
unfolding dry_run payload_to_send security_id_for
dry_run-ok env order instrument p h = elim (Option-cases (env.security_ids order.instrument_id)) [
  | inl missing ↦ absurd (ground arith)
  | inr (sid, found) ↦
      let built : payload_for env order instrument sid ≡ ok (record p { security_id = sid }) =
        unfold payload_for in
        place_payload_any_id env.lib order instrument "0" sid env.client_id env.config.product_type
          env.config.after_market_order env.config.amo_time p (ground arith) in
      (sid, found, built, ground arith)
]

dry_run-IsCaught :
    (env : Env) (order : Order) (instrument : Instrument) → IsCaught (dry_run env order instrument)
unfolding dry_run is_local_refusal security_id_for
dry_run-IsCaught env order instrument =
    IsCaught-bind _ _ (found_or_not (env.security_ids order.instrument_id))
      λ sid. payload_for-IsCaught env order instrument "0"
  where
    found_or_not :
        (o : Option String)
        → IsCaught {A = String} (elim o [ none ↦ err lookup_error | some sid ↦ ok sid ])
    found_or_not none = refl
    found_or_not (some sid) = tt

module _ (env : Env) (order : Order) (c : Client) where
  abbrev pub Denies : Reason → Type 0
  Denies = Denial env c order.instrument_id (λ instrument e. dry_run env order instrument ≡ err e)

  abbrev pub Contract : Result (Unit {0}) × Client → Type 0
  Contract =
      Submission env c (submit_path env) (IsPayloadFor env order) Denies (subject_of order ∷ [])
        (accepted_as order)

  submit_payload-Contract :
      (p : PlacePayload)
      → IsPayloadFor env order (Body.place p)
      → Contract (submit_payload env order p c)
  unfolding submit_payload
  submit_payload-Contract p fits =
      subst
        (λ (h : Exc → Action (Unit {0})). Contract (
          attempt (send env post (submit_path env) (Body.place p)) h
            (λ b. do order_id ← lift (order_id_in env.py b); emit_all (accepted_as order order_id))
            (submitting c (subject_of order ∷ []))))
        (sym (fun_ext (on_submit_failure-eq order)))
        (exchange-Submission env c (submit_path env) (IsPayloadFor env order) Denies (Body.place p)
          fits (subject_of order ∷ []) (accepted_as order))

  validated-Contract :
      (instrument : Instrument)
      → env.instrument order.instrument_id ≡ some instrument
      → (r : Result PlacePayload) → dry_run env order instrument ≡ r
      → IsCaught r
      → Contract (submit_decided env order (some instrument) (refusal_of r) c)
  unfolding submit_decided refusal_of submit_armed submit_built
  validated-Contract instrument i (err e) h caught =
      rw caught (refuses (refused e) (unsound instrument e i h caught))
  validated-Contract instrument i (ok p) h caught =
      let (sid, found, built, to_send) = dry_run-ok env order instrument p h in
      rw to_send (
        submit_payload-Contract (record p { security_id = sid })
          (instrument, sid, record p { security_id = sid }, i, found, built, refl))

  gated-Contract :
      (gate : Option (List Switch)) (latch : Bool) (found : Option Instrument)
      → submission_refusal env.config env.live_orders_env ≡ gate
      → c.is_degraded_by_ip ≡ latch
      → env.instrument order.instrument_id ≡ found
      → Contract (submit_decided env order found (gated env order gate latch found) c)
  unfolding submit_decided gated
  gated-Contract (some missing) latch found g d i = refuses (not_armed missing) (unarmed missing g)
  gated-Contract none true found g d i = refuses is_degraded (degraded d)
  gated-Contract none false none g d i = refuses not_in_cache (uncached i)
  gated-Contract none false (some instrument) g d i =
      validated-Contract instrument i (dry_run env order instrument) refl
        (dry_run-IsCaught env order instrument)

  -- Every call of `_submit_order` keeps the contract: it denies the order and sends nothing; or it
  -- sends one POST, whose body is the payload built for the cached instrument and the loaded id,
  -- and then emits nothing more where no JSON came back, a rejection where the answer was read as a
  -- failure, an acceptance under the id that the answer holds, or it raises where it holds none. It
  -- is denied for a switch that is not set, for the latch, for an instrument that is not in the
  -- cache, or for what the check of its payload raised.
  pub submit_order-Submission : Contract (submit_order env order c)
  unfolding submit_order refusal_for
  submit_order-Submission =
      gated-Contract (submission_refusal env.config env.live_orders_env) c.is_degraded_by_ip
        (env.instrument order.instrument_id) refl refl refl
