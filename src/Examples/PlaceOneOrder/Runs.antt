-- ===== src/Examples/PlaceOneOrder/Runs.antt =====
-- What a node of examples/dhan_execution.py sends from its start to its stop.
use mathlib.Core.Option.{some-injective}
use mathlib.Core.Bool.{false≢true}
use nautilus_trader_india.Prelude.{
  ◌≢◌, sym, Bool-cases, str_eq, eq_iff, String, ◌≡◌, refl, ◌∙◌, false, Option, none, some, List, [],
  ◌∷◌, ◌⊎◌, inl, inr,
}
use nautilus_trader_india.Nautilus.{Decimal, Instrument}
use nautilus_trader_india.Dhan.Exc.{Result, ok, err}
use nautilus_trader_india.Dhan.Auth.{unset_name, set_text}
use nautilus_trader_india.Dhan.Config.{exec_defaults}
use nautilus_trader_india.Dhan.Execution.Client.{Env, Client, Request}
use nautilus_trader_india.Dhan.Execution.Commands.{posts}
use nautilus_trader_india.Dhan.Factories.{create_exec, exec_client}
use nautilus_trader_india.Examples.{
  OneOrder, missing_keys, started_with, is_live, execution_node, execution_main,
}
use nautilus_trader_india.Examples.PlaceOneOrder.{
  Heard, order_denied, on_start, priced, perform, on_heard, hear, run, armed_by, run_strategy,
  run_client, launch,
}
use nautilus_trader_india.Examples.PlaceOneOrder.Sent.{
  OneMore, IsTheOrder, submit_order-OneMore, on_stop-no_post,
}

module _ (env : Env) (config : OneOrder) (strategy_id : String)
    (price_from : String → Result Decimal) where
  on_heard-no_post :
      (h : Heard) (c : Client)
      → posts (perform env config strategy_id (on_heard h) c).sent ≡ posts c.sent
  unfolding perform on_heard
  on_heard-no_post order_denied c = on_stop-no_post env config strategy_id c
  on_heard-no_post _ c = refl

  hear-no_post :
      (heard : List Heard) (c : Client)
      → posts (hear env config strategy_id heard c).sent ≡ posts c.sent
  unfolding hear
  hear-no_post [] c = refl
  hear-no_post (h ∷ heard) c =
      hear-no_post heard (perform env config strategy_id (on_heard h) c) ∙ on_heard-no_post h c

  priced-OneMore :
      (r : Result Decimal) (c : Client)
      → price_from config.limit_price ≡ r
      → OneMore
          (IsTheOrder env config price_from)
          c
          (perform env config strategy_id (priced config strategy_id r) c)
  unfolding perform priced
  priced-OneMore (ok price) c read =
      submit_order-OneMore env config strategy_id price_from price read c
  priced-OneMore (err e) c read = inl refl

  on_start-OneMore :
      (found : Option Instrument) (c : Client)
      → OneMore
          (IsTheOrder env config price_from)
          c
          (perform env config strategy_id (on_start price_from config strategy_id found) c)
  unfolding perform on_start
  on_start-OneMore none c = inl (on_stop-no_post env config strategy_id c)
  on_start-OneMore (some instrument) c = priced-OneMore (price_from config.limit_price) c refl

  run-OneMore :
      (heard : List Heard) (c : Client)
      → OneMore (IsTheOrder env config price_from) c (run env config strategy_id price_from heard c)
  unfolding run
  run-OneMore heard c =
      let calls = on_start price_from config strategy_id (env.instrument config.instrument_id) in
      let begun = perform env config strategy_id calls c in
      let later =
        on_stop-no_post env config strategy_id (hear env config strategy_id heard begun)
        ∙ hear-no_post heard begun in
      elim (on_start-OneMore (env.instrument config.instrument_id) c) [
        | inl same ↦ inl (later ∙ same)
        | inr (r, is, one) ↦ inr (r, is, later ∙ one)
      ]

-- The order of the script, on the configuration and the environment that it runs with.
abbrev pub IsScripted :
    Env → List String → (String → Option String) → (String → Result Decimal) → Request → Type 0
IsScripted env argv source =
    IsTheOrder (armed_by source (record exec_defaults { live_orders = is_live argv }) env)
      (record { instrument_id = "NIFTY260929002455000CE.NSE"; limit_price = "1.00" })

-- The environment has a text for the variable that is not empty.
abbrev pub IsGiven : (String → Option String) → String → Type 0
IsGiven source name = (value : String) × (source name ≡ some value) × (value ≢ "")

-- Which of the two variables of the credentials are not set.
pub data Unset (source : String → Option String) : List String → Type 0 where
  none_unset :
      IsGiven source "DHAN_CLIENT_ID" → IsGiven source "DHAN_ACCESS_TOKEN" → Unset source []
  id_unset :
      ¬ IsGiven source "DHAN_CLIENT_ID"
      → IsGiven source "DHAN_ACCESS_TOKEN"
      → Unset source ("DHAN_CLIENT_ID" ∷ [])
  token_unset :
      IsGiven source "DHAN_CLIENT_ID"
      → ¬ IsGiven source "DHAN_ACCESS_TOKEN"
      → Unset source ("DHAN_ACCESS_TOKEN" ∷ [])
  both_unset :
      ¬ IsGiven source "DHAN_CLIENT_ID"
      → ¬ IsGiven source "DHAN_ACCESS_TOKEN"
      → Unset source ("DHAN_CLIENT_ID" ∷ "DHAN_ACCESS_TOKEN" ∷ [])

unset_name-cases :
    (source : String → Option String) (name : String) (v : Option String)
    → source name ≡ v
    → ((unset_name name (set_text v) ≡ []) × IsGiven source name)
      ⊎ ((unset_name name (set_text v) ≡ name ∷ []) × ¬ IsGiven source name)
unfolding unset_name set_text
unset_name-cases source name none h = inr (refl, λ (value, e, filled). absurd (cc))
unset_name-cases source name (some s) h = elim (Bool-cases (str_eq s "")) [
  | inl e ↦
      let empty : s ≡ "" = (eq_iff s "").0 e in
      inr (
        rw e refl,
        λ (value, at, filled).
            let same : s ≡ value = some-injective s value (sym h ∙ at) in filled (sym same ∙ empty),
      )
  | inr n ↦ inl (rw n refl, (s, h, λ e. absurd (false≢true (sym n ∙ (eq_iff s "").1 e))))
]

missing_keys-Unset : (source : String → Option String) → Unset source (missing_keys source)
unfolding missing_keys
missing_keys-Unset source =
    elim (unset_name-cases source "DHAN_CLIENT_ID" (source "DHAN_CLIENT_ID") refl) [
      | inl (no_id, id) ↦
          rw no_id
            (elim (unset_name-cases source "DHAN_ACCESS_TOKEN" (source "DHAN_ACCESS_TOKEN") refl) [
              | inl (no_token, token) ↦ rw no_token (none_unset id token)
              | inr (one, token) ↦ rw one (token_unset id token)
            ])
      | inr (one_id, id) ↦
          rw one_id
            (elim (unset_name-cases source "DHAN_ACCESS_TOKEN" (source "DHAN_ACCESS_TOKEN") refl) [
              | inl (no_token, token) ↦ rw no_token (id_unset id token)
              | inr (one, token) ↦ rw one (both_unset id token)
            ])
    ]

-- How the script ends.
pub data Ends (env : Env) (argv : List String) (source : String → Option String)
    (price_from : String → Result Decimal) : List String ⊎ Option Client → Type 0 where
  exited :
      (names : List String)
      → names ≢ []
      → Unset source names
      → Ends env argv source price_from (inl names)
  ran :
      (c : Client)
      → Unset source []
      → (posts c.sent ≡ [])
        ⊎ ((r : Request) × IsScripted env argv source price_from r × (posts c.sent ≡ r ∷ []))
      → Ends env argv source price_from (inr (some c))

started-Ends :
    (env : Env) (argv : List String) (source : String → Option String)
    (price_from : String → Result Decimal) (strategy_id : String) (heard : List Heard)
    (names : List String)
    → Unset source names
    → Ends env argv source price_from
        (launch env source price_from strategy_id heard (started_with names (execution_node argv)))
unfolding started_with launch run_client run_strategy execution_node create_exec exec_client posts
started-Ends env argv source price_from strategy_id heard (name ∷ names) unset =
    exited (name ∷ names) (λ e. cc) unset
started-Ends env argv source price_from strategy_id heard [] unset = ran _ unset (
    run-OneMore (armed_by source (record exec_defaults { live_orders = is_live argv }) env)
      (record { instrument_id = "NIFTY260929002455000CE.NSE"; limit_price = "1.00" }) strategy_id
      price_from heard (record { is_degraded_by_ip = false; sent = []; events = [] }))

-- The script of examples/dhan_execution.py exits where one of the two variables of the credentials is
-- not set or is empty, with the names of those that are, in their order. Else it runs, and whatever the strategy hears and however the venue answers, at
-- most one order goes out: for one lot, to buy at the limit price that the script names, for the
-- day and under the id example-1 as it is; and only where the script was called with --live and the
-- environment variable is set.
pub execution_main-Ends :
    (env : Env) (argv : List String) (source : String → Option String)
    (price_from : String → Result Decimal) (strategy_id : String) (heard : List Heard)
    → Ends env argv source price_from
        (launch env source price_from strategy_id heard (execution_main argv source))
unfolding execution_main
execution_main-Ends env argv source price_from strategy_id heard =
    started-Ends env argv source price_from strategy_id heard (missing_keys source)
      (missing_keys-Unset source)
