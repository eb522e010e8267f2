-- ===== src/Dhan/Execution/Update/Ours.antt =====
-- Whose frames the client acts on.
use nautilus_trader_india.Prelude.{
  ◌≡◌, ◌≢◌, refl, sym, ◌∙◌, ap, String, true, Option, none, some, List, eq_iff, arith, Bool-cases,
  inl, inr,
}
use nautilus_trader_india.Dhan.Json.{Json, Fields, get, str_or}
use nautilus_trader_india.Dhan.Exc.{Result, ok, err}
use nautilus_trader_india.Dhan.Orders.{correlation_id}
use nautilus_trader_india.Dhan.Orders.Correlation.Matching.{IsOneOf}
use nautilus_trader_india.Dhan.Orders.Reports.Rows.{Reading, is_text}
use nautilus_trader_india.Dhan.OrderUpdates.{OrderUpdate, order_alert, parse, data_in, update_in}
use nautilus_trader_india.Dhan.Execution.Client.{Env}
use nautilus_trader_india.Dhan.Execution.Books.{Books}
use nautilus_trader_india.Dhan.Execution.Update.{Effect, ignored}
use nautilus_trader_india.Dhan.Execution.Update.Handled.{
  Handled, foreign, uncached, ours, handle_order_update-Handled,
}
use nautilus_trader_india.Dhan.Execution.Update.Messages.{
  Outcome, quiet, on_effect, on_parsed, handle_message,
}

-- The fields of the data of an order alert.
abbrev pub IsAlert : Json → Fields → Type 0
IsAlert message fields =
    (frame : Fields) × (message ≡ Json.obj frame)
    × (get "Type" frame ≡ some (Json.text order_alert))
    × (get "Data" frame ≡ some (Json.obj fields))

-- The frame is an order alert, and what it echoes is what one of our own orders was sent under.
abbrev pub IsOurs : Env → Books → Json → Type 0
IsOurs env books message =
    (fields : Fields) × (id : String) × IsAlert message fields
    × IsOneOf id books.client_order_ids
    × (correlation_id env.lib id ≡ str_or books.reading.py (get "CorrelationId" fields) "")

is_text-eq : (v : Option Json) (word : String) → is_text v word ≡ true → v ≡ some (Json.text word)
unfolding is_text
is_text-eq none word h = absurd (cc)
is_text-eq (some (Json.text s)) word h = ap (λ x. some (Json.text x)) ((eq_iff s word).0 h)
is_text-eq (some Json.null) word h = absurd (cc)
is_text-eq (some (Json.bool b)) word h = absurd (cc)
is_text-eq (some (Json.num n)) word h = absurd (cc)
is_text-eq (some (Json.arr vs)) word h = absurd (cc)
is_text-eq (some (Json.obj fs)) word h = absurd (cc)

update_in-correlation_id :
    (r : Reading) (fields : Fields) (update : OrderUpdate)
    → update_in r fields ≡ ok update
    → update.correlation_id ≡ str_or r.py (get "CorrelationId" fields) ""
unfolding update_in
update_in-correlation_id r fields update h = ground arith

data_in-update :
    (r : Reading) (v : Option Json) (update : OrderUpdate)
    → data_in r v ≡ ok (some update)
    → (fields : Fields) × (v ≡ some (Json.obj fields))
      × (update.correlation_id ≡ str_or r.py (get "CorrelationId" fields) "")
unfolding data_in
data_in-update r (some (Json.obj fields)) update h =
    (fields, refl, update_in-correlation_id r fields update (ground arith))
data_in-update r none update h = absurd (cc)
data_in-update r (some Json.null) update h = absurd (cc)
data_in-update r (some (Json.bool b)) update h = absurd (cc)
data_in-update r (some (Json.num n)) update h = absurd (cc)
data_in-update r (some (Json.text s)) update h = absurd (cc)
data_in-update r (some (Json.arr vs)) update h = absurd (cc)

parse-update :
    (r : Reading) (message : Json) (update : OrderUpdate)
    → parse r message ≡ ok (some update)
    → (fields : Fields) × IsAlert message fields
      × (update.correlation_id ≡ str_or r.py (get "CorrelationId" fields) "")
unfolding parse
parse-update r (Json.obj frame) update h =
    elim (Bool-cases (is_text (get "Type" frame) order_alert)) [
      | inl t ↦
          let (fields, at, e) = data_in-update r (get "Data" frame) update (ground arith) in
          (fields, (frame, refl, is_text-eq _ _ t, at), e)
      | inr f ↦ absurd (ground arith)
    ]
parse-update r Json.null update h = absurd (cc)
parse-update r (Json.bool b) update h = absurd (cc)
parse-update r (Json.num n) update h = absurd (cc)
parse-update r (Json.text s) update h = absurd (cc)
parse-update r (Json.arr vs) update h = absurd (cc)

named_in :
    (env : Env) (ids : List String) (update : OrderUpdate) (effect : Effect)
    → Handled env ids update effect
    → effect ≢ ignored
    → (id : String) × IsOneOf id ids × (correlation_id env.lib id ≡ update.correlation_id)
named_in env ids update _ (foreign h) acts = absurd (acts refl)
named_in env ids update _ (uncached id m e h) acts = absurd (acts refl)
named_in env ids update _ (ours id order effect m e h says) acts = (id, m, e)

acted_on :
    (books : Books) (update : OrderUpdate) (effect : Effect) (outcome : Outcome)
    → on_effect books update effect ≡ ok outcome
    → outcome ≢ quiet
    → effect ≢ ignored
unfolding on_effect
acted_on books update effect outcome h loud e =
    let same : on_effect books update ignored ≡ ok outcome =
      ap (on_effect books update) (sym e) ∙ h in
    loud (cc)

on_parsed-IsOurs :
    (env : Env) (books : Books) (message : Json) (parsed : Result (Option OrderUpdate))
    (outcome : Outcome)
    → parse books.reading message ≡ parsed
    → on_parsed env books parsed ≡ ok outcome
    → outcome ≢ quiet
    → IsOurs env books message
unfolding on_parsed
on_parsed-IsOurs env books message (err e) outcome p h loud = absurd (loud (ground arith))
on_parsed-IsOurs env books message (ok none) outcome p h loud = absurd (loud (cc))
on_parsed-IsOurs env books message (ok (some update)) outcome p h loud =
    let ids = books.client_order_ids in
    let (fields, alert, echoed) = parse-update books.reading message update p in
    let (id, known, sent) =
      named_in env ids update _ (handle_order_update-Handled env ids update)
        (acted_on books update _ outcome h loud) in
    (fields, id, alert, known, sent ∙ echoed)

-- A frame that makes the client emit an event or report fills is an order alert, and it echoes what
-- an order whose id the client knows was sent under. So nothing is emitted for an order that was
-- placed elsewhere, nor on a frame of another kind.
pub handle_message-IsOurs :
    (env : Env) (books : Books) (message : Json) (outcome : Outcome)
    → handle_message env books message ≡ ok outcome
    → outcome ≢ quiet
    → IsOurs env books message
unfolding handle_message
handle_message-IsOurs env books message outcome h loud =
    on_parsed-IsOurs env books message (parse books.reading message) outcome refl h loud
