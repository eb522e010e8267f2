-- ===== src/Dhan/Tests/Updates.antt =====
-- Updates of the order-update stream.
use nautilus_trader_india.Dhan.Orders.Correlation.{
  client_order_id_for, find_candidate, correlation_id, matches_safe, is_safe, is_safe_rest,
}
use nautilus_trader_india.Dhan.Orders.Times.{ist_to_ns}
use nautilus_trader_india.Dhan.Orders.Reports.Rows.{is_text, required, decimal_or_none, value_of}
use nautilus_trader_india.Prelude.{
  ◌≢◌, refl, String, pos, none, some, false, List, [], ◌∷◌, text_eq, to_upper,
}
use nautilus_trader_india.Nautilus.{filled, buy}
use nautilus_trader_india.Dhan.Execution.Update.{
  emits_accepted, handle_order_update, effect_for, effect_of, effect_on,
}
use nautilus_trader_india.Dhan.Json.{Json, Fields, get, py_str, str_or, truthy}
use nautilus_trader_india.Dhan.OrderUpdates.{
  OrderUpdate, parse, data_in, update_in, status_of, is_word, str_get, int_or_zero, first_set,
  int_or_none,
}
use nautilus_trader_india.Dhan.Execution.Update.Messages.{
  Outcome, quiet, emitted, handle_message, on_parsed, on_effect,
}
use nautilus_trader_india.Dhan.Execution.Stream.{
  Stream, started, opened, handled, opens, handles, starts, steps,
}
use nautilus_trader_india.Dhan.Execution.Stream.Runs.{IsSound, Reaches-IsSound}
use nautilus_trader_india.Dhan.Execution.Update.Ours.{IsOurs, handle_message-IsOurs}
use nautilus_trader_india.Dhan.Execution.Update.Handled.{Handled, handle_order_update-Handled}
use nautilus_trader_india.Dhan.Tests.Fixtures.{env, books, subject}

abbrev known_ids : List String
known_ids = "O-2" ∷ "O-1" ∷ []

abbrev update : OrderUpdate
update = record {
  venue_order_id = "7";
  order_status = filled;
  order_side = buy;
  security_id = "35001";
  segment_code = some (pos 2);
  quantity = pos 65;
  traded_quantity = pos 65;
  remaining_quantity = pos 0;
  average_price = none;
  price = none;
  correlation_id = "O-1";
  reason = "";
  ts_event = pos 0;
  leg_number = none;
  is_super_order_leg = false;
}

handle_order_update-Handled_example :
    Handled env known_ids update (handle_order_update env known_ids update)
handle_order_update-Handled_example = handle_order_update-Handled env known_ids update

-- The frame of an order of ours that the exchange accepted.
abbrev alert : Json
alert = Json.obj (
    Fields.field "Type" (Json.text "order_alert") (
      Fields.field "Data"
        (Json.obj (
          Fields.field "OrderNo" (Json.text "7") (
            Fields.field "Status" (Json.text "pending")
              (Fields.field "CorrelationId" (Json.text "O-1") Fields.end))))
        Fields.end))

abbrev accepted_once : Outcome
accepted_once = emitted (emits_accepted subject "7")

loud : accepted_once ≢ quiet
loud h = cc

handle_message-IsOurs_example : IsOurs env books alert
unfolding handle_message on_parsed on_effect parse data_in update_in status_of is_word str_get
    int_or_zero first_set int_or_none is_text required decimal_or_none value_of get py_str str_or
    truthy text_eq to_upper ist_to_ns effect_for effect_of effect_on handle_order_update
    client_order_id_for find_candidate correlation_id matches_safe is_safe is_safe_rest
handle_message-IsOurs_example = handle_message-IsOurs env books alert accepted_once refl loud

abbrev up : Stream
up = opened started

Reaches-IsSound_example : IsSound env (handled books alert accepted_once up)
unfolding handle_message on_parsed on_effect parse data_in update_in status_of is_word str_get
    int_or_zero first_set int_or_none is_text required decimal_or_none value_of get py_str str_or
    truthy text_eq to_upper ist_to_ns effect_for effect_of effect_on handle_order_update
    client_order_id_for find_candidate correlation_id matches_safe is_safe is_safe_rest opened
Reaches-IsSound_example = Reaches-IsSound env (handled books alert accepted_once up) (
    steps up (handled books alert accepted_once up)
      (steps started up starts (opens started refl refl))
      (handles up books alert accepted_once refl refl refl))
