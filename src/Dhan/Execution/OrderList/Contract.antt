-- ===== src/Dhan/Execution/OrderList/Contract.antt =====
-- `_submit_order_list` keeps the contract of a submission, for the three orders of a bracket.
use Prim.Native.String.{◌++◌ as str_append}
use nautilus_trader_india.Prelude.{
  String, ◌≡◌, refl, Bool, true, false, List, [], ◌∷◌, ◌⊎◌, inl, inr, Option, none, some, arith,
  sym, subst, fun_ext, Option-cases, Bool-cases,
}
use nautilus_trader_india.Nautilus.{Order, Instrument}
use nautilus_trader_india.Dhan.Exc.{Exc, Result, ok, err, ambiguous, is_local_refusal}
use nautilus_trader_india.Dhan.Http.{post}
use nautilus_trader_india.Dhan.Constants.{super_orders_path}
use nautilus_trader_india.Dhan.Config.{Switch, submission_refusal}
use nautilus_trader_india.Dhan.SuperOrders.{SuperPayload, place_payload, leg_venue_order_id}
use nautilus_trader_india.Dhan.SuperOrders.Placed.{place_payload_any_id}
use nautilus_trader_india.Dhan.Execution.Client.{
  Env, Client, Action, Event, Reason, Subject, Body, subject_of, accepted, attempt, send, lift,
  emit_all, refused, not_armed, is_degraded, not_in_cache, not_a_bracket, ◌>>=◌,
}
use nautilus_trader_india.Dhan.Execution.Submit.{order_id_in, refusal_of, security_id_for}
use nautilus_trader_india.Dhan.Execution.Submission.{
  Submission, Denial, unarmed, degraded, uncached, unsound, refuses, on_failure,
  exchange-Submission, submitting,
}
use nautilus_trader_india.Dhan.Execution.OrderList.{
  OrderList, three_legs, payload_for_list, dry_run, gated, on_list_failure, accept_legs, accept_all,
  submit_payload, submit_built, payload_to_send, submit_armed, submit_decided, submit_order_list,
}

module _ (env : Env) (entry target stop_loss : Order) (c : Client) where
  abbrev pub bracket : List Order
  bracket = entry ∷ target ∷ stop_loss ∷ []

  abbrev subjects : List Subject
  subjects = subject_of entry ∷ subject_of target ∷ subject_of stop_loss ∷ []

  -- The super order that goes out: all three orders in one payload.
  abbrev pub IsPayloadFor : Body → Type 0
  IsPayloadFor body =
      (instrument : Instrument) × (sid : String) × (p : SuperPayload) × (env.instrument
          entry.instrument_id
        ≡ some instrument)
      × (env.security_ids entry.instrument_id ≡ some sid)
      × (place_payload env.lib entry target stop_loss instrument sid env.client_id
            env.config.product_type "0"
          ≡ ok p)
      × (body ≡ Body.super_order p)

  -- The entry keeps the bare id, and each leg has an id of its own.
  abbrev pub accepted_legs : String → List Event
  accepted_legs order_id =
      accepted (subject_of entry) order_id
      ∷ accepted (subject_of target) (str_append order_id (str_append ":" "TARGET_LEG"))
      ∷ accepted (subject_of stop_loss) (str_append order_id (str_append ":" "STOP_LOSS_LEG"))
      ∷ []

  -- A list that Nautilus does not call a bracket is denied too.
  abbrev pub Denies : Bool → Reason → Type 0
  Denies is_bracket why =
      Denial env c entry.instrument_id (λ i e. dry_run env entry bracket i ≡ err e) why
      ⊎ ((why ≡ not_a_bracket) × (is_bracket ≡ false))

  abbrev pub Contract : Bool → Result (Unit {0}) × Client → Type 0
  Contract is_bracket =
      Submission env c super_orders_path IsPayloadFor (Denies is_bracket) subjects accepted_legs

  -- Nothing was sent and nothing emitted.
  abbrev pub RaisesAtOnce : Result (Unit {0}) × Client → Type 0
  RaisesAtOnce out =
      (i : Instrument) × (e : Exc) × (env.instrument entry.instrument_id ≡ some i)
      × (dry_run env entry bracket i ≡ err e)
      × (is_local_refusal e ≡ false)
      × (out ≡ (err e, c))

  on_list_failure-eq : (e : Exc) → on_list_failure bracket e ≡ on_failure subjects e
  unfolding on_list_failure on_failure
  on_list_failure-eq (ambiguous f) = refl
  on_list_failure-eq _ = refl

  accept_all-eq :
      (order_id : String) → accept_all bracket order_id ≡ emit_all (accepted_legs order_id)
  unfolding accept_all accept_legs leg_venue_order_id
  accept_all-eq order_id = refl

  submit_payload-Contract :
      (b : Bool) (p : SuperPayload)
      → IsPayloadFor (Body.super_order p)
      → Contract b (submit_payload env bracket p c)
  unfolding submit_payload
  submit_payload-Contract b p fits =
      subst
        (λ (h : (Exc → Action (Unit {0})) × (String → Action (Unit {0}))). Contract b (
          attempt (send env post super_orders_path (Body.super_order p)) h.0
            (λ b. do order_id ← lift (order_id_in env.py b); h.1 order_id) (submitting c subjects)))
        (λ i. (fun_ext (λ e. sym (on_list_failure-eq e)) i, fun_ext (λ o. sym (accept_all-eq o)) i))
        (exchange-Submission env c super_orders_path IsPayloadFor (Denies b) (Body.super_order p)
          fits subjects accepted_legs)

  dry_run-ok :
      (instrument : Instrument) (p : SuperPayload)
      → dry_run env entry bracket instrument ≡ ok p
      → (sid : String) × (env.security_ids entry.instrument_id ≡ some sid)
        × (place_payload env.lib entry target stop_loss instrument sid env.client_id
              env.config.product_type "0"
            ≡ ok (record p { security_id = sid }))
        × (payload_to_send env entry bracket instrument ≡ ok (record p { security_id = sid }))
  unfolding dry_run payload_to_send security_id_for payload_for_list three_legs
  dry_run-ok instrument p h = elim (Option-cases (env.security_ids entry.instrument_id)) [
    | inl missing ↦ absurd (ground arith)
    | inr (sid, found) ↦
        let built : place_payload env.lib entry target stop_loss instrument sid env.client_id
              env.config.product_type "0"
            ≡ ok (record p { security_id = sid }) =
          place_payload_any_id env.lib entry target stop_loss instrument "0" sid env.client_id
            env.config.product_type "0" p (ground arith) in
        (sid, found, built, ground arith)
  ]

  validated-Contract :
      (b : Bool) (instrument : Instrument)
      → env.instrument entry.instrument_id ≡ some instrument
      → (r : Result SuperPayload) → dry_run env entry bracket instrument ≡ r
      → let out = submit_decided env entry bracket (some instrument) (refusal_of r) c in
        RaisesAtOnce out ⊎ Contract b out
  unfolding submit_decided refusal_of submit_armed submit_built
  validated-Contract b instrument i (err e) h = elim (Bool-cases (is_local_refusal e)) [
    | inl caught ↦ rw caught (inr (refuses (refused e) (inl (unsound instrument e i h caught))))
    | inr through ↦ rw through (inl (instrument, e, i, h, through, refl))
  ]
  validated-Contract b instrument i (ok p) h =
      let (sid, found, built, to_send) = dry_run-ok instrument p h in
      rw to_send (
        inr (
          submit_payload-Contract b (record p { security_id = sid })
            (instrument, sid, record p { security_id = sid }, i, found, built, refl)))

  gated-Contract :
      (is_bracket : Bool) (gate : Option (List Switch)) (latch : Bool) (found : Option Instrument)
      → submission_refusal env.config env.live_orders_env ≡ gate
      → c.is_degraded_by_ip ≡ latch
      → env.instrument entry.instrument_id ≡ found
      → let list : OrderList = record { orders = bracket; is_bracket = is_bracket } in
        let out =
          submit_decided env entry bracket found (gated env entry list gate latch found) c in
        RaisesAtOnce out ⊎ Contract is_bracket out
  unfolding submit_decided gated
  gated-Contract b (some missing) latch found g d i =
      inr (refuses (not_armed missing) (inl (unarmed missing g)))
  gated-Contract b none true found g d i = inr (refuses is_degraded (inl (degraded d)))
  gated-Contract false none false found g d i = inr (refuses not_a_bracket (inr (refl, refl)))
  gated-Contract true none false none g d i = inr (refuses not_in_cache (inl (uncached i)))
  gated-Contract true none false (some instrument) g d i =
      validated-Contract true instrument i (dry_run env entry bracket instrument) refl

  -- A list of three orders is denied whole with nothing sent, or goes out as one super order whose
  -- answer settles all three alike: nothing more is emitted where no JSON came back, all are rejected
  -- where the answer was read as a failure, all are accepted under ids of their own where it holds an
  -- order id, and it raises where it holds none. An exception of building the payload that is no
  -- local refusal is raised before anything is sent; a local refusal denies the list.
  pub submit_order_list-Submission :
      (is_bracket : Bool)
      → let out = submit_order_list env (record { orders = bracket; is_bracket = is_bracket }) c in
        RaisesAtOnce out ⊎ Contract is_bracket out
  unfolding submit_order_list
  submit_order_list-Submission b =
      gated-Contract b (submission_refusal env.config env.live_orders_env) c.is_degraded_by_ip
        (env.instrument entry.instrument_id) refl refl refl
