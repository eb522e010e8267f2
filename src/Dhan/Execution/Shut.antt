-- ===== src/Dhan/Execution/Shut.antt =====
-- A client whose gate is shut sends no order: without both switches, or once the latch of
-- `is_degraded_by_ip` is set.
use nautilus_trader_india.Prelude.{
  String, ◌≡◌, refl, ◌∙◌, Bool, true, false, List, [], ◌∷◌, Option, none, some, ◌⊎◌, inl, inr,
  arith,
}
use nautilus_trader_india.Nautilus.{Order, Instrument}
use nautilus_trader_india.Dhan.Exc.{Result}
use nautilus_trader_india.Dhan.Config.{Switch, submission_refusal, submission_refusal-none}
use nautilus_trader_india.Dhan.Execution.Commands.{
  Command, submit, submit_list, submit_forever, cancel, modify, execute, execute_all, posts,
  posts-append_other,
}
use nautilus_trader_india.Dhan.Execution.Client.{Env, Client, Event, Subject}
use nautilus_trader_india.Dhan.Execution.Submit
use nautilus_trader_india.Dhan.Execution.OrderList
use nautilus_trader_india.Dhan.Execution.ForeverOrder
use nautilus_trader_india.Dhan.Execution.Cancel.{cancel_order}
use nautilus_trader_india.Dhan.Execution.Cancel.Laws.{
  Cancellation, unknown, declines, confirms, cancel_order-Cancellation, delete_of,
}
use nautilus_trader_india.Dhan.Execution.Modify.{ModifyCommand}
use nautilus_trader_india.Dhan.Execution.Modify.Laws
use nautilus_trader_india.Dhan.Execution.Modify.Laws.{
  Modification, rejects, raises, modify_order-Modification, put_of,
}

-- The gate of a submission is shut: a switch is not set, or the client is degraded.
abbrev pub IsShut : Option (List Switch) → Bool → Type 0
IsShut (some missing) degraded = Unit
IsShut none degraded = degraded ≡ true

abbrev pub gate_of : Env → Option (List Switch)
gate_of env = submission_refusal env.config env.live_orders_env

-- No order went out, and a degraded client is still degraded.
pub record StaysShut (c d : Client) : Type 0 where
  pub still : c.is_degraded_by_ip ≡ true → d.is_degraded_by_ip ≡ true
  pub no_post : posts d.sent ≡ posts c.sent

unsent : (c : Client) (es : List Event) → StaysShut c (record c { events = es })
unsent c es = record { still = λ h. h; no_post = refl }

IsShut-after :
    (gate : Option (List Switch)) (c d : Client)
    → IsShut gate c.is_degraded_by_ip
    → StaysShut c d
    → IsShut gate d.is_degraded_by_ip
IsShut-after (some missing) c d shut stays = tt
IsShut-after none c d shut stays = stays.still shut

module _ (env : Env) where
  submit_decided-StaysShut :
      (order : Order) (gate : Option (List Switch)) (found : Option Instrument) (c : Client)
      (d : Bool)
      → IsShut gate d
      → StaysShut c
          (Submit.submit_decided env order found (Submit.gated env order gate d found) c).1
  unfolding Submit.submit_decided Submit.gated
  submit_decided-StaysShut order (some missing) found c d shut = unsent c _
  submit_decided-StaysShut order none found c true shut = unsent c _
  submit_decided-StaysShut order none found c false shut = absurd (ground arith)

  submit_list_decided-StaysShut :
      (list : OrderList.OrderList) (entry : Order) (gate : Option (List Switch))
      (found : Option Instrument) (c : Client) (d : Bool)
      → IsShut gate d
      → StaysShut c
          (OrderList.submit_decided env entry list.orders found
            (OrderList.gated env entry list gate d found)
            c).1
  unfolding OrderList.submit_decided OrderList.gated
  submit_list_decided-StaysShut list entry (some missing) found c d shut = unsent c _
  submit_list_decided-StaysShut list entry none found c true shut = unsent c _
  submit_list_decided-StaysShut list entry none found c false shut = absurd (ground arith)

  submit_from-StaysShut :
      (list : OrderList.OrderList) (orders : List Order) (c : Client)
      → IsShut (gate_of env) c.is_degraded_by_ip
      → StaysShut c (OrderList.submit_from env list orders c).1
  unfolding OrderList.submit_from
  submit_from-StaysShut list [] c shut = unsent c c.events
  submit_from-StaysShut list (entry ∷ rest) c shut =
      submit_list_decided-StaysShut list entry (gate_of env) _ c c.is_degraded_by_ip shut

  submit_gated-StaysShut :
      (order : Order) (product : String) (second : Option Order) (gate : Option (List Switch))
      (found : Option Instrument) (c : Client) (d : Bool)
      → IsShut gate d
      → StaysShut c
          (ForeverOrder.submit_gated env order
            (ForeverOrder.gated env order product second gate d found)
            c).1
  unfolding ForeverOrder.submit_gated ForeverOrder.gated
  submit_gated-StaysShut order product second (some missing) found c d shut = unsent c _
  submit_gated-StaysShut order product second none none c d shut = unsent c _
  submit_gated-StaysShut order product second none (some i) c true shut = unsent c _
  submit_gated-StaysShut order product second none (some i) c false shut = absurd (ground arith)

  Cancellation-StaysShut :
      {c : Client} {s : Subject} {v : String} {out : Result (Unit {0}) × Client}
      → Cancellation env c s v out
      → StaysShut c out.1
  Cancellation-StaysShut {c} {s} {v} (unknown f w) = record {
    still = λ h. h;
    no_post = posts-append_other c.sent (delete_of v) refl;
  }
  Cancellation-StaysShut {c} {s} {v} (declines e w n) = record {
    still = λ h. h;
    no_post = posts-append_other c.sent (delete_of v) refl;
  }
  Cancellation-StaysShut {c} {s} {v} (confirms b w) = record {
    still = λ h. h;
    no_post = posts-append_other c.sent (delete_of v) refl;
  }

  Modification-StaysShut :
      {c : Client} {command : ModifyCommand} {out : Result (Unit {0}) × Client}
      → Modification env c command out
      → StaysShut c out.1
  Modification-StaysShut {c} (rejects v why _) = unsent c _
  Modification-StaysShut {c} (raises e _) = unsent c _
  Modification-StaysShut {c} (Laws.unknown v p q price f t w) = record {
    still = λ h. h;
    no_post = posts-append_other c.sent (put_of v p) refl;
  }
  Modification-StaysShut {c} (Laws.declines v p q price e t w n) = record {
    still = λ h. h;
    no_post = posts-append_other c.sent (put_of v p) refl;
  }
  Modification-StaysShut {c} (Laws.confirms v p b q price t w) = record {
    still = λ h. h;
    no_post = posts-append_other c.sent (put_of v p) refl;
  }

  execute-StaysShut :
      (command : Command) (c : Client)
      → IsShut (gate_of env) c.is_degraded_by_ip
      → StaysShut c (execute env command c)
  unfolding execute Submit.submit_order Submit.refusal_for OrderList.submit_order_list
      ForeverOrder.submit_forever_order
  execute-StaysShut (submit order) c shut =
      submit_decided-StaysShut order (gate_of env) _ c c.is_degraded_by_ip shut
  execute-StaysShut (submit_list list) c shut = submit_from-StaysShut list list.orders c shut
  execute-StaysShut (submit_forever order product second) c shut =
      submit_gated-StaysShut order product second (gate_of env) _ c c.is_degraded_by_ip shut
  execute-StaysShut (cancel subject none) c shut = unfold cancel_order in unsent c _
  execute-StaysShut (cancel subject (some v)) c shut =
      Cancellation-StaysShut (cancel_order-Cancellation env subject c v)
  execute-StaysShut (modify command) c shut =
      Modification-StaysShut (modify_order-Modification env c command)

-- Both switches are set: the configuration says `live_orders`, and the variable is the text 1.
abbrev pub IsArmed : Env → Type 0
IsArmed env = (env.config.live_orders ≡ true) × (env.live_orders_env ≡ some "1")

unarmed-IsShut :
    (env : Env) (gate : Option (List Switch)) (degraded : Bool)
    → gate_of env ≡ gate
    → ¬ IsArmed env
    → IsShut gate degraded
unarmed-IsShut env (some missing) degraded e unarmed = tt
unarmed-IsShut env none degraded e unarmed =
    absurd (unarmed ((submission_refusal-none env.config env.live_orders_env).0 e))

degraded-IsShut :
    (gate : Option (List Switch)) (degraded : Bool) → degraded ≡ true → IsShut gate degraded
degraded-IsShut (some missing) degraded h = tt
degraded-IsShut none degraded h = h

execute_all-shut :
    (env : Env) (commands : List Command) (c : Client)
    → IsShut (gate_of env) c.is_degraded_by_ip
    → StaysShut c (execute_all env commands c)
unfolding execute_all
execute_all-shut env [] c shut = unsent c c.events
execute_all-shut env (command ∷ commands) c shut =
    let one = execute-StaysShut env command c shut in
    let rest =
      execute_all-shut env commands (execute env command c)
        (IsShut-after (gate_of env) c (execute env command c) shut one) in
    record { still = λ h. rest.still (one.still h); no_post = rest.no_post ∙ one.no_post }

-- Where the configuration does not say `live_orders` or the environment variable is not the text 1,
-- and once Dhan has rejected the client's address, the client sends no order: no POST goes out,
-- whatever sequence of submissions, cancels and modifications follows and however the venue answers.
-- A client that is degraded stays so.
pub execute_all-StaysShut :
    (env : Env) (commands : List Command) (c : Client)
    → (¬ IsArmed env) ⊎ (c.is_degraded_by_ip ≡ true)
    → StaysShut c (execute_all env commands c)
execute_all-StaysShut env commands c (inl unarmed) =
    execute_all-shut env commands c (unarmed-IsShut env (gate_of env) _ refl unarmed)
execute_all-StaysShut env commands c (inr degraded) =
    execute_all-shut env commands c (degraded-IsShut (gate_of env) _ degraded)
