-- ===== src/Dhan/Execution/ForeverOrder/Contract.antt =====
-- `submit_forever_order` keeps the contract of a submission.
use nautilus_trader_india.Prelude.{
  String, ◌≡◌, refl, Bool, true, false, List, [], ◌∷◌, ◌⊎◌, inl, inr, Option, none, some, sym,
  subst, fun_ext, Bool-cases,
}
use nautilus_trader_india.Nautilus.{Order, Instrument}
use nautilus_trader_india.Dhan.Exc.{Exc, Result, ok, err, is_local_refusal}
use nautilus_trader_india.Dhan.Http.{post}
use nautilus_trader_india.Dhan.Constants.{forever_orders_path}
use nautilus_trader_india.Dhan.Config.{Switch, submission_refusal}
use nautilus_trader_india.Dhan.ForeverOrders.{ForeverPayload}
use nautilus_trader_india.Dhan.Execution.Client.{
  Env, Client, Action, Reason, Body, subject_of, attempt, send, lift, emit_all, refused, not_armed,
  is_degraded, not_in_cache, ◌>>=◌,
}
use nautilus_trader_india.Dhan.Execution.Submit.{order_id_in}
use nautilus_trader_india.Dhan.Execution.Submission.{
  Submission, Denial, unarmed, degraded, uncached, unsound, refuses, exchange-Submission,
  submitting,
}
use nautilus_trader_india.Dhan.Execution.Submitted.{accepted_as, on_submit_failure-eq}
use nautilus_trader_india.Dhan.Execution.ForeverOrder.{
  payload_for, gated, submit_payload, submit_gated, submit_forever_order,
}

module _ (env : Env) (order : Order) (product : String) (second_leg : Option Order)
    (c : Client) where
  -- The forever order that goes out.
  abbrev pub IsPayloadFor : Body → Type 0
  IsPayloadFor body =
      (instrument : Instrument) × (p : ForeverPayload) × (env.instrument order.instrument_id
        ≡ some instrument)
      × (payload_for env order product second_leg instrument ≡ ok p)
      × (body ≡ Body.forever_order p)

  abbrev pub Denies : Reason → Type 0
  Denies =
      Denial env c order.instrument_id
        (λ instrument e. payload_for env order product second_leg instrument ≡ err e)

  abbrev pub Contract : Result (Unit {0}) × Client → Type 0
  Contract =
      Submission env c forever_orders_path IsPayloadFor Denies (subject_of order ∷ [])
        (accepted_as order)

  abbrev pub RaisesAtOnce : Result (Unit {0}) × Client → Type 0
  RaisesAtOnce out =
      (i : Instrument) × (e : Exc) × (env.instrument order.instrument_id ≡ some i)
      × (payload_for env order product second_leg i ≡ err e)
      × (is_local_refusal e ≡ false)
      × (out ≡ (err e, c))

  submit_payload-Contract :
      (p : ForeverPayload)
      → IsPayloadFor (Body.forever_order p)
      → Contract (submit_payload env order p c)
  unfolding submit_payload
  submit_payload-Contract p fits =
      subst
        (λ (h : Exc → Action (Unit {0})). Contract (
          attempt (send env post forever_orders_path (Body.forever_order p)) h
            (λ b. do order_id ← lift (order_id_in env.py b); emit_all (accepted_as order order_id))
            (submitting c (subject_of order ∷ []))))
        (sym (fun_ext (on_submit_failure-eq order)))
        (exchange-Submission env c forever_orders_path IsPayloadFor Denies (Body.forever_order p)
          fits (subject_of order ∷ []) (accepted_as order))

  built-Contract :
      (instrument : Instrument)
      → env.instrument order.instrument_id ≡ some instrument
      → (r : Result ForeverPayload) → payload_for env order product second_leg instrument ≡ r
      → let out = submit_gated env order (inr r) c in RaisesAtOnce out ⊎ Contract out
  unfolding submit_gated
  built-Contract instrument i (ok p) h = inr (submit_payload-Contract p (instrument, p, i, h, refl))
  built-Contract instrument i (err e) h = elim (Bool-cases (is_local_refusal e)) [
    | inl caught ↦ rw caught (inr (refuses (refused e) (unsound instrument e i h caught)))
    | inr through ↦ rw through (inl (instrument, e, i, h, through, refl))
  ]

  gated-Contract :
      (gate : Option (List Switch)) (latch : Bool) (found : Option Instrument)
      → submission_refusal env.config env.live_orders_env ≡ gate
      → c.is_degraded_by_ip ≡ latch
      → env.instrument order.instrument_id ≡ found
      → let out = submit_gated env order (gated env order product second_leg gate latch found) c in
        RaisesAtOnce out ⊎ Contract out
  unfolding submit_gated gated
  gated-Contract (some missing) latch found g d i =
      inr (refuses (not_armed missing) (unarmed missing g))
  gated-Contract none latch none g d i = inr (refuses not_in_cache (uncached i))
  gated-Contract none true (some instrument) g d i = inr (refuses is_degraded (degraded d))
  gated-Contract none false (some instrument) g d i = built-Contract instrument i _ refl

  -- A forever order is denied with nothing sent, or goes out as one POST whose answer decides what
  -- is emitted, as for an ordinary order. An exception of building the payload that is no local
  -- refusal is raised before anything is sent; a local refusal denies the order.
  pub submit_forever_order-Submission :
      let out = submit_forever_order env order product second_leg c in
      RaisesAtOnce out ⊎ Contract out
  unfolding submit_forever_order
  submit_forever_order-Submission =
      gated-Contract (submission_refusal env.config env.live_orders_env) c.is_degraded_by_ip
        (env.instrument order.instrument_id) refl refl refl
