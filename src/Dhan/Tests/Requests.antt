-- ===== src/Dhan/Tests/Requests.antt =====
-- Cancels, modifies, the latch and the lookup by a client order id.
use nautilus_trader_india.Prelude.{
  String, inr, refl, true, ◌≡◌, ◌↔◌, none, some, List, [], ◌∷◌, ◌++◌, map,
}
use nautilus_trader_india.Nautilus.{buy}
use nautilus_trader_india.Dhan.Exc.{ok}
use nautilus_trader_india.Dhan.Json.{Json, Fields, get, str_or}
use nautilus_trader_india.Dhan.Orders.{
  correlation_id, place_payload, order_type_for, side_name, segment_name, checked, validity_for,
}
use nautilus_trader_india.Dhan.Http.{delete, put, json, write, answer}
use nautilus_trader_india.Dhan.SuperOrders.{LegTerms}
use nautilus_trader_india.Dhan.Execution.ForeverOrder.{cancel_forever_order}
use nautilus_trader_india.Dhan.Execution.Cancel.Direct.{
  Direct, IsLegDelete, IsBadLeg, IsLegPut, leg_methods-Direct,
}
use nautilus_trader_india.Dhan.Execution.Cancel.{
  cancel_super_order_leg, modify_super_order_leg, cancel_order, cancel_all_orders,
}
use nautilus_trader_india.Dhan.Execution.Cancel.Laws.{
  Cancellation, cancel_order-Cancellation, cancel_all_orders-sent, delete_of, Asked,
}
use nautilus_trader_india.Dhan.Execution.Modify.{ModifyCommand, modify_order}
use nautilus_trader_india.Dhan.Execution.Modify.Laws.{Modification, modify_order-Modification}
use nautilus_trader_india.Dhan.Execution.Commands.{
  Command, submit, cancel, modify, execute_all, execute,
}
use nautilus_trader_india.Dhan.Execution.Client.{Body, Env, send}
use nautilus_trader_india.Dhan.Execution.Shut.{StaysShut}
use nautilus_trader_india.Dhan.Execution.Latch.{heard_refusal}
use nautilus_trader_india.Dhan.Execution.Latch.Runs.{session-StaysShut, fresh}
use nautilus_trader_india.Dhan.Execution.Lookup.{
  lookup_path, external_path, lookup_path-sent_iff, IsSendable,
}
use nautilus_trader_india.Dhan.Execution.Submit.{
  submit_order, submit_decided, refusal_for, gated, refusal_of, dry_run, security_id_for,
  payload_for, submit_armed, submit_built, payload_to_send, submit_payload, on_submit_failure,
}
use nautilus_trader_india.Dhan.Config.{submission_refusal}
use nautilus_trader_india.Dhan.Orders.Payload.{needs_trigger}
use nautilus_trader_india.Dhan.Constants.{segment_names, is_member}
use nautilus_trader_india.Dhan.Errors.{
  classify, failure_in_object, has_error_field, raise_failure, is_rate_limit, error_fields,
  is_ip_refusal,
}
use nautilus_trader_india.Dhan.Tests.Fixtures.{
  env, lib, lib-IsDigest, entry, client, subject, one_lot, rupees,
}

abbrev command : ModifyCommand
command = record {
  subject = subject;
  venue_order_id = some "7";
  quantity = some one_lot;
  price = rupees;
  trigger_price = none;
}

cancel_order-Cancellation_example :
    Cancellation env client subject "7" (cancel_order env subject (some "7") client)
cancel_order-Cancellation_example = cancel_order-Cancellation env subject client "7"

cancel_all_orders-sent_example :
    let out = cancel_all_orders env "S" "NIFTY" buy client in
    (out.0 ≡ ok tt)
    × ((vs : List String) × Asked buy (env.orders_open "NIFTY") vs
        × (out.1.sent ≡ client.sent ++ map delete_of vs))
cancel_all_orders-sent_example = cancel_all_orders-sent env "S" "NIFTY" buy client

modify_order-Modification_example :
    Modification env client command (modify_order env command client)
modify_order-Modification_example = modify_order-Modification env client command

abbrev commands : List Command
commands = submit entry ∷ cancel subject (some "7") ∷ modify command ∷ submit entry ∷ []

-- The venue refuses the address with every answer.
abbrev invalid_ip : Fields
invalid_ip = Fields.field "errorMessage" (Json.text "Invalid IP") Fields.end

abbrev refusing : Env
refusing = record env { venue = λ _ _. json (Json.obj invalid_ip) }

refusing-heard : heard_refusal (execute_all refusing (submit entry ∷ []) fresh).events ≡ true
unfolding execute_all execute submit_order submit_decided refusal_for gated submission_refusal
    refusal_of dry_run security_id_for payload_for place_payload order_type_for needs_trigger
    side_name segment_name segment_names checked is_member validity_for submit_armed submit_built
    payload_to_send submit_payload send write answer classify failure_in_object has_error_field get
    on_submit_failure raise_failure is_rate_limit error_fields str_or is_ip_refusal
refusing-heard = refl

session-StaysShut_example :
    let degraded = execute_all refusing (submit entry ∷ []) fresh in
    StaysShut degraded (execute_all refusing commands degraded)
session-StaysShut_example =
    session-StaysShut refusing (submit entry ∷ []) commands (inr refusing-heard)

lookup_path-sent_iff_example :
    (lookup_path none (some "O-19700101-000000-001-000-1")
      ≡ some (external_path (correlation_id lib "O-19700101-000000-001-000-1")))
    ↔ IsSendable "O-19700101-000000-001-000-1"
lookup_path-sent_iff_example = lookup_path-sent_iff lib "O-19700101-000000-001-000-1" lib-IsDigest

abbrev new_price : LegTerms
new_price = record {
  order_type = none;
  quantity_units = none;
  price = none;
  target_price = some "210";
  stop_loss_price = none;
  trailing_jump = none;
}

leg_methods-Direct_example :
    Direct env client delete "/v2/super/orders/7/ENTRY_LEG"
      (IsLegDelete "ENTRY_LEG")
      (IsBadLeg "ENTRY_LEG")
      (cancel_super_order_leg env "7" "ENTRY_LEG" client)
    × Direct env client put "/v2/super/orders/7"
        (IsLegPut env "7" "ENTRY_LEG" new_price)
        (IsBadLeg "ENTRY_LEG")
        (modify_super_order_leg env "7" "ENTRY_LEG" new_price client)
    × Direct env client delete "/v2/forever/orders/7"
        (λ body. body ≡ Body.empty)
        (λ _. ⊥)
        (cancel_forever_order env "7" client)
leg_methods-Direct_example = leg_methods-Direct env client "7" "ENTRY_LEG" new_price
