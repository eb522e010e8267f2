-- ===== src/Dhan/Execution/Commands.antt =====
-- The commands that a node gives the client, in any sequence, and the orders that go out.
use mathlib.Core.List.{append-nil}
use nautilus_trader_india.Prelude.{
  String, ◌≡◌, refl, ap, ◌∙◌, Bool, true, false, List, [], ◌∷◌, ◌++◌, Option, arith, if◌then◌else◌,
}
use nautilus_trader_india.Nautilus.{Order}
use nautilus_trader_india.Dhan.Http.{Method, post}
use nautilus_trader_india.Dhan.Execution.Client.{Env, Client, Request, Subject}
use nautilus_trader_india.Dhan.Execution.Submit
use nautilus_trader_india.Dhan.Execution.OrderList
use nautilus_trader_india.Dhan.Execution.ForeverOrder
use nautilus_trader_india.Dhan.Execution.Cancel.{cancel_order}
use nautilus_trader_india.Dhan.Execution.Modify.{ModifyCommand, modify_order}

pub data Command : Type 0 where
  submit : Order → Command
  submit_list : OrderList.OrderList → Command
  submit_forever : Order → String → Option Order → Command
  cancel : Subject → Option String → Command
  modify : ModifyCommand → Command

-- One command. A method that raises ends its own command only.
unfoldable pub execute : Env → Command → Client → Client
execute env (submit order) c = (Submit.submit_order env order c).1
execute env (submit_list list) c = (OrderList.submit_order_list env list c).1
execute env (submit_forever order product second) c =
    (ForeverOrder.submit_forever_order env order product second c).1
execute env (cancel subject v) c = (cancel_order env subject v c).1
execute env (modify command) c = (modify_order env command c).1

unfoldable pub execute_all : Env → List Command → Client → Client
execute_all env [] c = c
execute_all env (command ∷ commands) c = execute_all env commands (execute env command c)

abbrev pub is_post : Method → Bool
is_post post = true
is_post _ = false

-- The orders that went out: the POSTs.
unfoldable pub posts : List Request → List Request
posts [] = []
posts (r ∷ rs) = let rest = posts rs in if is_post r.method then r ∷ rest else rest

pub posts-append : (xs ys : List Request) → posts (xs ++ ys) ≡ posts xs ++ posts ys
unfolding posts
posts-append [] ys = refl
posts-append (x ∷ xs) ys = ground (arith, posts-append xs ys)

posts_other : (r : Request) → is_post r.method ≡ false → posts (r ∷ []) ≡ []
unfolding posts
posts_other r h = rw h refl

pub posts-append_other :
    (xs : List Request) (r : Request) → is_post r.method ≡ false → posts (xs ++ r ∷ []) ≡ posts xs
posts-append_other xs r h =
    posts-append xs (r ∷ []) ∙ ap (λ ys. posts xs ++ ys) (posts_other r h) ∙ append-nil (posts xs)
