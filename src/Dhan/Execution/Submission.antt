-- ===== src/Dhan/Execution/Submission.antt =====
-- The contract that every submission keeps, whatever its endpoint: nothing is sent and everything
-- is denied, or one request is sent and its answer decides what is emitted.
use nautilus_trader_india.Prelude.{
  String, ◌≡◌, ◌≢◌, refl, Bool, true, false, List, [], ◌∷◌, ◌++◌, map, none, some, if◌then◌else◌,
}
use nautilus_trader_india.Dhan.Json.{Json}
use nautilus_trader_india.Dhan.Exc.{
  Failure, Exc, Result, ok, err, transport_error, ambiguous, dhan_api_error, ip_not_whitelisted,
  rate_limited, is_dhan_error, is_local_refusal,
}
use nautilus_trader_india.Nautilus.{Instrument}
use nautilus_trader_india.Dhan.Config.{Switch, submission_refusal}
use nautilus_trader_india.Dhan.Errors.{classify}
use nautilus_trader_india.Dhan.Errors.Laws.{classify-ne-ambiguous}
use nautilus_trader_india.Dhan.Http.{Response, http_error, not_json, json, post, write, answer}
use nautilus_trader_india.Dhan.Http.Laws.{is_unread, write-is_dhan_error}
use nautilus_trader_india.Dhan.Execution.Client.{
  Env, Client, Action, Subject, Event, Reason, Body, Request, pure, lift, raise, attempt, emit_all,
  degrade, send, denied, submitted, rejected, not_armed, is_degraded, not_in_cache, refused, ◌>>=◌,
  ◌>>◌,
}
use nautilus_trader_india.Dhan.Execution.Submit.{order_id_in}
use nautilus_trader_india.Dhan.Execution.OrderIds.{
  HoldsId, order_id_in-HoldsId, order_id_in-of_HoldsId,
}

-- The mark that a failure leaves on the client.
abbrev pub mark : Exc → Bool → Bool
mark (ip_not_whitelisted f) degraded = true
mark _ degraded = degraded

-- Why an order is denied: a switch is not set, the client is degraded, its instrument is not in the
-- cache, or what is wrong with it, which `Fails` says, is caught.
pub data Denial (env : Env) (c : Client) (instrument_id : String)
    (Fails : Instrument → Exc → Type 0) : Reason → Type 0 where
  unarmed :
      (missing : List Switch)
      → submission_refusal env.config env.live_orders_env ≡ some missing
      → Denial env c instrument_id Fails (not_armed missing)
  degraded : c.is_degraded_by_ip ≡ true → Denial env c instrument_id Fails is_degraded
  uncached : env.instrument instrument_id ≡ none → Denial env c instrument_id Fails not_in_cache
  unsound :
      (i : Instrument) (e : Exc)
      → env.instrument instrument_id ≡ some i
      → Fails i e
      → is_local_refusal e ≡ true
      → Denial env c instrument_id Fails (refused e)

-- `Fits` says which bodies may be sent, `Denies` why none is;
-- `accepts` is what the acknowledgement of an order id emits.
pub data Submission (env : Env) (c : Client) (path : String) (Fits : Body → Type 0)
    (Denies : Reason → Type 0) (subjects : List Subject) (accepts : String → List Event)
    : Result (Unit {0}) × Client → Type 0 where
  -- Nothing was sent.
  refuses :
      (why : Reason)
      → Denies why
      → Submission env c path Fits Denies subjects accepts
          (ok tt, record c { events = c.events ++ map (λ s. denied s why) subjects })
  -- No JSON came back: neither a rejection nor an acceptance is emitted.
  unknown :
      (r : Request)
      → r ≡ record { method = post; path = path; body = r.body }
      → Fits r.body
      → is_unread (env.venue c.sent r) ≡ true
      → Submission env c path Fits Denies subjects accepts
          (ok tt, record c { sent = c.sent ++ r ∷ []; events = c.events ++ map submitted subjects })
  -- The answer was read and is a failure.
  declines :
      (r : Request) (e : Exc)
      → r ≡ record { method = post; path = path; body = r.body }
      → Fits r.body
      → is_unread (env.venue c.sent r) ≡ false
      → write env.py post path (env.venue c.sent r) ≡ err e
      → is_dhan_error e ≡ true
      → Submission env c path Fits Denies subjects accepts (
        ok tt,
        record {
          is_degraded_by_ip = mark e c.is_degraded_by_ip;
          sent = c.sent ++ r ∷ [];
          events = (c.events ++ map submitted subjects) ++ map (λ s. rejected s e) subjects;
        },
      )
  -- The answer was read and acknowledges the order.
  acknowledges :
      (r : Request) (b : Json) (order_id : String)
      → r ≡ record { method = post; path = path; body = r.body }
      → Fits r.body
      → is_unread (env.venue c.sent r) ≡ false
      → write env.py post path (env.venue c.sent r) ≡ ok b
      → HoldsId env.py b order_id
      → Submission env c path Fits Denies subjects accepts (
        ok tt,
        record c {
          sent = c.sent ++ r ∷ [];
          events = (c.events ++ map submitted subjects) ++ accepts order_id;
        },
      )
  -- The answer was read, is no failure and holds no order id.
  breaks :
      (r : Request) (b : Json) (e : Exc)
      → r ≡ record { method = post; path = path; body = r.body }
      → Fits r.body
      → is_unread (env.venue c.sent r) ≡ false
      → write env.py post path (env.venue c.sent r) ≡ ok b
      → (order_id_in env.py b ≡ err e) × ¬ ((order_id : String) × HoldsId env.py b order_id)
      → Submission env c path Fits Denies subjects accepts
          (err e, record c { sent = c.sent ++ r ∷ []; events = c.events ++ map submitted subjects })

-- The handlers around a submission, for all of its orders.
unfoldable pub on_failure : List Subject → Exc → Action (Unit {0})
on_failure subjects (ambiguous f) = pure tt
on_failure subjects (ip_not_whitelisted f) =
    degrade >> emit_all (map (λ s. rejected s (ip_not_whitelisted f)) subjects)
on_failure subjects e =
    if is_dhan_error e then emit_all (map (λ s. rejected s e) subjects) else raise e

abbrev pub submitting : Client → List Subject → Client
submitting c subjects = record c { events = c.events ++ map submitted subjects }

module _ (env : Env) (c : Client) (path : String) (Fits : Body → Type 0) (Denies : Reason → Type 0)
    (body : Body) (fits : Fits body) (subjects : List Subject) (accepts : String → List Event) where
  abbrev request : Request
  request = record { method = post; path = path; body = body }

  abbrev sending : Client
  sending = record (submitting c subjects) { sent = c.sent ++ request ∷ [] }

  -- What follows once the answer is there.
  abbrev settle : Result Json → Result (Unit {0}) × Client
  settle r = elim r [
    | ok b ↦ (do order_id ← lift (order_id_in env.py b); emit_all (accepts order_id)) sending
    | err e ↦ on_failure subjects e sending
  ]

  module _ (read : is_unread (env.venue c.sent request) ≡ false) where
    acknowledged-Submission :
        (b : Json) (r : Result String)
        → write env.py post path (env.venue c.sent request) ≡ ok b
        → order_id_in env.py b ≡ r
        → Submission env c path Fits Denies subjects accepts
            ((do order_id ← lift r; emit_all (accepts order_id)) sending)
    acknowledged-Submission b (ok order_id) w e =
        acknowledges request b order_id refl fits read w (order_id_in-HoldsId env.py b order_id e)
    acknowledged-Submission b (err x) w e =
        breaks request b x refl fits read w
          (e, λ (i, held). let found = order_id_in-of_HoldsId env.py b i held in absurd (cc))

    settle-Submission :
        (r : Result Json)
        → write env.py post path (env.venue c.sent request) ≡ r
        → ((f : Failure) → r ≢ err (ambiguous f))
        → Submission env c path Fits Denies subjects accepts (settle r)
    unfolding on_failure is_dhan_error
    settle-Submission (ok b) w definite = acknowledged-Submission b (order_id_in env.py b) w refl
    settle-Submission (err (ambiguous f)) w definite = absurd (definite f refl)
    settle-Submission (err (ip_not_whitelisted f)) w definite =
        declines request (ip_not_whitelisted f) refl fits read w refl
    settle-Submission (err (transport_error f)) w definite =
        declines request (transport_error f) refl fits read w refl
    settle-Submission (err (dhan_api_error f)) w definite =
        declines request (dhan_api_error f) refl fits read w refl
    settle-Submission (err (rate_limited f)) w definite =
        declines request (rate_limited f) refl fits read w refl
    settle-Submission (err e) w definite =
        let dhan = write-is_dhan_error env.py path post _ _ w in absurd (cc)

  answered-Submission :
      (response : Response)
      → env.venue c.sent request ≡ response
      → Submission env c path Fits Denies subjects accepts
          (settle (write env.py post path response))
  unfolding write answer on_failure
  answered-Submission (http_error why) e = unknown request refl fits (rw e)
  answered-Submission (not_json why) e = unknown request refl fits (rw e)
  answered-Submission (json b) e =
      settle-Submission (rw e) (classify env.py b) (rw e) (λ f. classify-ne-ambiguous env.py b f)

  -- Sending the request and settling its answer keeps the contract.
  pub exchange-Submission : Submission env c path Fits Denies subjects accepts (
      attempt
        (send env post path body)
        (on_failure subjects)
        (λ b. do order_id ← lift (order_id_in env.py b); emit_all (accepts order_id))
        (submitting c subjects))
  unfolding send
  exchange-Submission = answered-Submission (env.venue c.sent request) refl
