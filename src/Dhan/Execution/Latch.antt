-- ===== src/Dhan/Execution/Latch.antt =====
-- The latch `is_degraded_by_ip` of nautilus_india/dhan/execution.py, from the refusal of an address on.
pub mod Runs
use nautilus_trader_india.Prelude.{
  String, ◌≡◌, refl, sym, ap, subst, ◌∙◌, Bool, true, false, ◌||◌, List, [], ◌∷◌, ◌++◌, map, Option,
  none, some, ◌⊎◌, inl, inr, arith, any,
}
use nautilus_trader_india.Nautilus.{Order, Instrument}
use nautilus_trader_india.Dhan.Json.{Json}
use nautilus_trader_india.Dhan.Exc.{
  Exc, Result, ok, err, ambiguous, ip_not_whitelisted, transport_error, dhan_api_error,
  rate_limited, is_dhan_error,
}
use nautilus_trader_india.Dhan.Http.{post, write}
use nautilus_trader_india.Dhan.Constants.{super_orders_path}
use nautilus_trader_india.Dhan.Execution.Client.{
  Env, Client, Event, Subject, Reason, Body, Request, subject_of, denied, submitted, rejected,
  accepted, canceled, cancel_rejected, modify_rejected, updated, ◌>>=◌, lift, send,
}
use nautilus_trader_india.Dhan.Execution.Commands.{
  Command, submit, submit_list, submit_forever, cancel, modify, execute, execute_all,
}
use nautilus_trader_india.Dhan.Execution.Submission.{
  Submission, refuses, unknown, declines, acknowledges, breaks, mark,
}
use nautilus_trader_india.Dhan.Execution.Submit.{order_id_in}
use nautilus_trader_india.Dhan.Execution.Submitted.{submit_order-Submission}
use nautilus_trader_india.Dhan.Execution.OrderList
use nautilus_trader_india.Dhan.Execution.OrderList.{accept_legs, accept_all, on_list_failure}
use nautilus_trader_india.Dhan.Execution.ForeverOrder.{submit_forever_order}
use nautilus_trader_india.Dhan.Execution.ForeverOrder.Contract.{submit_forever_order-Submission}
use nautilus_trader_india.Dhan.Execution.Cancel.{cancel_order}
use nautilus_trader_india.Dhan.Execution.Cancel.Laws.{Cancellation, cancel_order-Cancellation}
use nautilus_trader_india.Dhan.Execution.Cancel.Laws as Cancels
use nautilus_trader_india.Dhan.Execution.Modify.{ModifyCommand, modify_order}
use nautilus_trader_india.Dhan.Execution.Modify.Laws.{Modification, modify_order-Modification}
use nautilus_trader_india.Dhan.Execution.Modify.Laws as Modifies
use nautilus_trader_india.Dhan.SuperOrders.{SuperPayload}

-- An order was rejected because Dhan refuses the client's address.
abbrev pub is_address_refusal : Event → Bool
is_address_refusal (rejected s (ip_not_whitelisted f)) = true
is_address_refusal _ = false

abbrev pub heard_refusal : List Event → Bool
heard_refusal events = any is_address_refusal events

heard_refusal-append :
    (xs ys : List Event) → heard_refusal (xs ++ ys) ≡ heard_refusal xs || heard_refusal ys
heard_refusal-append [] ys = refl
heard_refusal-append (x ∷ xs) ys = ground (arith, heard_refusal-append xs ys)

-- A degraded client stays so, and an address that is refused on the way degrades it.
pub record Keeps (c d : Client) : Type 0 where
  pub still : c.is_degraded_by_ip ≡ true → d.is_degraded_by_ip ≡ true
  pub latched :
      heard_refusal d.events ≡ true → (heard_refusal c.events ≡ true) ⊎ (d.is_degraded_by_ip ≡ true)

pub same-Keeps : (c : Client) → Keeps c c
same-Keeps c = record { still = λ h. h; latched = λ h. inl h }

appended-Keeps :
    (c d : Client) (es : List Event)
    → d.is_degraded_by_ip ≡ c.is_degraded_by_ip
    → d.events ≡ c.events ++ es
    → heard_refusal es ≡ false
    → Keeps c d
appended-Keeps c d es latch events quiet = record {
  still = λ h. latch ∙ h;
  latched = λ h.
      let split = heard_refusal-append c.events es in inl (ground (arith, events, split, quiet, h));
}

degraded-Keeps : (c d : Client) → d.is_degraded_by_ip ≡ true → Keeps c d
degraded-Keeps c d h = record { still = λ _. h; latched = λ _. inr h }

quiet_map :
    {A : Type 0} (f : A → Event) (xs : List A)
    → ((x : A) → is_address_refusal (f x) ≡ false)
    → heard_refusal (map f xs) ≡ false
quiet_map f [] h = refl
quiet_map f (x ∷ xs) h = ground (arith, h x, quiet_map f xs h)

quiet-append :
    (xs ys : List Event)
    → heard_refusal xs ≡ false
    → heard_refusal ys ≡ false
    → heard_refusal (xs ++ ys) ≡ false
quiet-append xs ys h k = ground (arith, heard_refusal-append xs ys, h, k)

appended_twice-Keeps :
    (c d : Client) (es fs : List Event)
    → d.is_degraded_by_ip ≡ c.is_degraded_by_ip
    → d.events ≡ (c.events ++ es) ++ fs
    → heard_refusal es ≡ false
    → heard_refusal fs ≡ false
    → Keeps c d
appended_twice-Keeps c d es fs latch events quiet_es quiet_fs = record {
  still = λ h. latch ∙ h;
  latched = λ h.
      let split = heard_refusal-append (c.events ++ es) fs in
      let front = heard_refusal-append c.events es in
      inl (ground (arith, events, split, front, quiet_es, quiet_fs, h));
}

-- A failure that is rejected for each subject leaves its mark.
declined-Keeps :
    (c d : Client) (ss : List Subject) (e : Exc)
    → d.is_degraded_by_ip ≡ mark e c.is_degraded_by_ip
    → d.events ≡ (c.events ++ map submitted ss) ++ map (λ s. rejected s e) ss
    → Keeps c d
declined-Keeps c d ss (ip_not_whitelisted f) latch events = degraded-Keeps c d latch
declined-Keeps c d ss e latch events =
    appended_twice-Keeps c d (map submitted ss) (map (λ s. rejected s e) ss) latch events
      (quiet_map submitted ss (λ s. refl)) (quiet_map (λ s. rejected s e) ss (λ s. refl))

pub Submission-Keeps :
    {env : Env} {c : Client} {path : String} {Fits : Body → Type 0} {Denies : Reason → Type 0}
    {ss : List Subject} {accepts : String → List Event} {out : Result (Unit {0}) × Client}
    → ((order_id : String) → heard_refusal (accepts order_id) ≡ false)
    → Submission env c path Fits Denies ss accepts out
    → Keeps c out.1
Submission-Keeps {c = c} {ss = ss} quiet (refuses why _) =
    appended-Keeps c _ (map (λ s. denied s why) ss) refl refl
      (quiet_map (λ s. denied s why) ss (λ s. refl))
Submission-Keeps {c = c} {ss = ss} quiet (unknown r _ _ _) =
    appended-Keeps c _ (map submitted ss) refl refl (quiet_map submitted ss (λ s. refl))
Submission-Keeps {c = c} {ss = ss} quiet (declines r e _ _ _ _ _) =
    declined-Keeps c _ ss e refl refl
Submission-Keeps {c = c} {ss = ss} {accepts = accepts} quiet (acknowledges r b order_id _ _ _ _ _) =
    appended_twice-Keeps c _ (map submitted ss) (accepts order_id) refl refl
      (quiet_map submitted ss (λ s. refl)) (quiet order_id)
Submission-Keeps {c = c} {ss = ss} quiet (breaks r b e _ _ _ _ _) =
    appended-Keeps c _ (map submitted ss) refl refl (quiet_map submitted ss (λ s. refl))

pub Cancellation-Keeps :
    {env : Env} {c : Client} {s : Subject} {v : String} {out : Result (Unit {0}) × Client}
    → Cancellation env c s v out
    → Keeps c out.1
Cancellation-Keeps {c = c} (Cancels.unknown f w) = record { still = λ h. h; latched = λ h. inl h }
Cancellation-Keeps {c = c} (Cancels.declines e w n) = appended-Keeps c _ (_ ∷ []) refl refl refl
Cancellation-Keeps {c = c} (Cancels.confirms b w) = appended-Keeps c _ (_ ∷ []) refl refl refl

pub Modification-Keeps :
    {env : Env} {c : Client} {command : ModifyCommand} {out : Result (Unit {0}) × Client}
    → Modification env c command out
    → Keeps c out.1
Modification-Keeps {c = c} (Modifies.rejects v why _) = appended-Keeps c _ (_ ∷ []) refl refl refl
Modification-Keeps {c = c} (Modifies.raises e _) = same-Keeps c
Modification-Keeps {c = c} (Modifies.unknown v p q price f t w) = record {
  still = λ h. h;
  latched = λ h. inl h;
}
Modification-Keeps {c = c} (Modifies.declines v p q price e t w n) =
    appended-Keeps c _ (_ ∷ []) refl refl refl
Modification-Keeps {c = c} (Modifies.confirms v p b q price t w) =
    appended-Keeps c _ (_ ∷ []) refl refl refl

quiet_accepts :
    (order_id : String) (orders : List Order) (legs : List String)
    → heard_refusal (accept_legs order_id orders legs).0 ≡ false
unfolding accept_legs
quiet_accepts order_id [] [] = refl
quiet_accepts order_id (o ∷ orders) (leg ∷ legs) = quiet_accepts order_id orders legs
quiet_accepts order_id [] (leg ∷ legs) = refl
quiet_accepts order_id (o ∷ orders) [] = refl

-- A list of any length, which is no bracket or one.
module _ (env : Env) (orders : List Order) (c : Client) where
  abbrev submitting : List Event
  submitting = map (λ o. submitted (subject_of o)) orders

  submitting-quiet : heard_refusal submitting ≡ false
  submitting-quiet = quiet_map (λ o. submitted (subject_of o)) orders (λ o. refl)

  accepted_all-Keeps :
      (sending : Client) (r : Result String)
      → sending.is_degraded_by_ip ≡ c.is_degraded_by_ip
      → sending.events ≡ c.events ++ submitting
      → Keeps c ((do order_id ← lift r; accept_all orders order_id) sending).1
  unfolding accept_all
  accepted_all-Keeps sending (ok order_id) latch events =
      appended_twice-Keeps c _ submitting (accept_legs order_id orders OrderList.legs).0 latch
        (subst
          (λ es.
            sending.events ++ (accept_legs order_id orders OrderList.legs).0
            ≡ es ++ (accept_legs order_id orders OrderList.legs).0)
          events refl)
        submitting-quiet (quiet_accepts order_id orders OrderList.legs)
  accepted_all-Keeps sending (err e) latch events =
      appended-Keeps c sending submitting latch events submitting-quiet

  rejected_all-Keeps :
      (sending d : Client) (e : Exc)
      → is_address_refusal
          (rejected (record { strategy_id = ""; instrument_id = ""; client_order_id = "" }) e)
        ≡ false
      → sending.events ≡ c.events ++ submitting
      → d.is_degraded_by_ip ≡ c.is_degraded_by_ip
      → d.events ≡ sending.events ++ map (λ o. rejected (subject_of o) e) orders
      → Keeps c d
  rejected_all-Keeps sending d e other events latch more =
      appended_twice-Keeps c d submitting (map (λ o. rejected (subject_of o) e) orders) latch
        (more ∙ ap (λ es. es ++ map (λ o. rejected (subject_of o) e) orders) events)
        submitting-quiet
        (quiet_map (λ o. rejected (subject_of o) e) orders (λ o. is_other e (subject_of o) other))
    where
      is_other :
          (e : Exc) (s : Subject)
          → is_address_refusal
              (rejected (record { strategy_id = ""; instrument_id = ""; client_order_id = "" }) e)
            ≡ false
          → is_address_refusal (rejected s e) ≡ false
      is_other (ip_not_whitelisted f) s h = h
      is_other e s h = refl

  failed-Keeps :
      (sending : Client) (e : Exc)
      → sending.is_degraded_by_ip ≡ c.is_degraded_by_ip
      → sending.events ≡ c.events ++ submitting
      → Keeps c (on_list_failure orders e sending).1
  unfolding on_list_failure is_dhan_error
  failed-Keeps sending (ip_not_whitelisted f) latch events = degraded-Keeps c _ refl
  failed-Keeps sending (transport_error f) latch events =
      rejected_all-Keeps sending _ (transport_error f) refl events latch refl
  failed-Keeps sending (dhan_api_error f) latch events =
      rejected_all-Keeps sending _ (dhan_api_error f) refl events latch refl
  failed-Keeps sending (rate_limited f) latch events =
      rejected_all-Keeps sending _ (rate_limited f) refl events latch refl
  failed-Keeps sending e latch events =
      appended-Keeps c sending submitting latch events submitting-quiet

  settled-Keeps :
      (sending : Client) (r : Result Json)
      → sending.is_degraded_by_ip ≡ c.is_degraded_by_ip
      → sending.events ≡ c.events ++ submitting
      → Keeps c
          (elim r as (λ _. Result (Unit {0}) × Client) [
            | ok b ↦ (do order_id ← lift (order_id_in env.py b); accept_all orders order_id) sending
            | err e ↦ on_list_failure orders e sending
          ]).1
  settled-Keeps sending (ok b) latch events =
      accepted_all-Keeps sending (order_id_in env.py b) latch events
  settled-Keeps sending (err e) latch events = failed-Keeps sending e latch events

  submit_built-Keeps : (r : Result SuperPayload) → Keeps c (OrderList.submit_built env orders r c).1
  unfolding OrderList.submit_built OrderList.submit_payload send
  submit_built-Keeps (err e) = same-Keeps c
  submit_built-Keeps (ok payload) = settled-Keeps _ _ refl refl

  pub submit_decided-Keeps :
      (entry : Order) (found : Option Instrument) (r : Result (Option Reason))
      → Keeps c (OrderList.submit_decided env entry orders found r c).1
  unfolding OrderList.submit_decided OrderList.submit_armed
  submit_decided-Keeps entry found (err e) = same-Keeps c
  submit_decided-Keeps entry found (ok (some why)) =
      appended-Keeps c _ (map (λ o. denied (subject_of o) why) orders) refl refl
        (quiet_map (λ o. denied (subject_of o) why) orders (λ o. refl))
  submit_decided-Keeps entry none (ok none) = same-Keeps c
  submit_decided-Keeps entry (some i) (ok none) = submit_built-Keeps _
