-- ===== src/Dhan/Execution/Latch/Runs.antt =====
-- What a client sends once Dhan has refused its address, or while it is not armed.
use nautilus_trader_india.Prelude.{
  String, ◌≡◌, refl, subst, sym, true, false, List, [], ◌∷◌, Option, none, some, ◌⊎◌, inl, inr,
}
use nautilus_trader_india.Nautilus.{Order}
use nautilus_trader_india.Dhan.Exc.{Result}
use nautilus_trader_india.Dhan.Execution.Client.{Env, Client}
use nautilus_trader_india.Dhan.Execution.Commands.{
  Command, submit, submit_list, submit_forever, cancel, modify, execute, execute_all,
}
use nautilus_trader_india.Dhan.Execution.Submitted.{submit_order-Submission}
use nautilus_trader_india.Dhan.Execution.OrderList
use nautilus_trader_india.Dhan.Execution.ForeverOrder.Contract as Forever
use nautilus_trader_india.Dhan.Execution.ForeverOrder.Contract.{submit_forever_order-Submission}
use nautilus_trader_india.Dhan.Execution.Cancel.{cancel_order}
use nautilus_trader_india.Dhan.Execution.Cancel.Laws.{cancel_order-Cancellation}
use nautilus_trader_india.Dhan.Execution.Modify.Laws.{modify_order-Modification}
use nautilus_trader_india.Dhan.Execution.Shut.{IsArmed, StaysShut, execute_all-StaysShut}
use nautilus_trader_india.Dhan.Execution.Latch.{
  heard_refusal, Keeps, same-Keeps, Submission-Keeps, Cancellation-Keeps, Modification-Keeps,
  submit_decided-Keeps, appended-Keeps,
}

submit_from-Keeps :
    (env : Env) (list : OrderList.OrderList) (orders : List Order) (c : Client)
    → Keeps c (OrderList.submit_from env list orders c).1
unfolding OrderList.submit_from
submit_from-Keeps env list [] c = same-Keeps c
submit_from-Keeps env list (entry ∷ rest) c = submit_decided-Keeps env list.orders c entry _ _

forever-Keeps :
    (env : Env) (order : Order) (product : String) (second : Option Order) (c : Client)
    (out : Result (Unit {0}) × Client)
    → Forever.RaisesAtOnce env order product second c out
      ⊎ Forever.Contract env order product second c out
    → Keeps c out.1
forever-Keeps env order product second c out (inl (i, e, _, _, _, raised)) =
    subst (λ (o : Result (Unit {0}) × Client). Keeps c o.1) (sym raised) (same-Keeps c)
forever-Keeps env order product second c out (inr kept) = Submission-Keeps (λ id. refl) kept

execute-Keeps : (env : Env) (command : Command) (c : Client) → Keeps c (execute env command c)
unfolding execute OrderList.submit_order_list cancel_order
execute-Keeps env (submit order) c =
    Submission-Keeps (λ id. refl) (submit_order-Submission env order c)
execute-Keeps env (submit_list list) c = submit_from-Keeps env list list.orders c
execute-Keeps env (submit_forever order product second) c =
    forever-Keeps env order product second c _
      (submit_forever_order-Submission env order product second c)
execute-Keeps env (cancel subject none) c = appended-Keeps c _ (_ ∷ []) refl refl refl
execute-Keeps env (cancel subject (some v)) c =
    Cancellation-Keeps (cancel_order-Cancellation env subject c v)
execute-Keeps env (modify command) c = Modification-Keeps (modify_order-Modification env c command)

-- A client that has reported the refusal of its address is degraded.
abbrev IsLatched : Client → Type 0
IsLatched c = heard_refusal c.events ≡ true → c.is_degraded_by_ip ≡ true

Keeps-IsLatched : (c d : Client) → Keeps c d → IsLatched c → IsLatched d
Keeps-IsLatched c d kept latch h = elim (kept.latched h) [
  | inl before ↦ kept.still (latch before)
  | inr now ↦ now
]

execute_all-IsLatched :
    (env : Env) (commands : List Command) (c : Client)
    → IsLatched c
    → IsLatched (execute_all env commands c)
unfolding execute_all
execute_all-IsLatched env [] c latch = latch
execute_all-IsLatched env (command ∷ commands) c latch =
    execute_all-IsLatched env commands (execute env command c)
      (Keeps-IsLatched c (execute env command c) (execute-Keeps env command c) latch)

-- The client as it is constructed.
abbrev pub fresh : Client
fresh = record { is_degraded_by_ip = false; sent = []; events = [] }

-- The client after some commands is cut off: it is not armed, or one of its orders was rejected
-- because Dhan refuses its address.
abbrev pub IsCutOff : Env → Client → Type 0
IsCutOff env c = (¬ IsArmed env) ⊎ (heard_refusal c.events ≡ true)

-- Where the configuration does not say `live_orders` or the environment variable is not the text 1,
-- and once an order of any kind was rejected because Dhan refuses the client's address, the client
-- sends no order: no POST goes out, whatever sequence of submissions, cancels and modifications came
-- before and follows, and however the venue answers. A client that is degraded stays so. A cancel or
-- a modification that Dhan refuses for the address does not count as such an order.
pub session-StaysShut :
    (env : Env) (before after : List Command)
    → IsCutOff env (execute_all env before fresh)
    → StaysShut
        (execute_all env before fresh)
        (execute_all env after (execute_all env before fresh))
session-StaysShut env before after (inl unarmed) =
    execute_all-StaysShut env after (execute_all env before fresh) (inl unarmed)
session-StaysShut env before after (inr heard) =
    execute_all-StaysShut env after (execute_all env before fresh)
      (inr (execute_all-IsLatched env before fresh (λ e. absurd (cc)) heard))
