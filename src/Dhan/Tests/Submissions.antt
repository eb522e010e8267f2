-- ===== src/Dhan/Tests/Submissions.antt =====
-- Submissions of one order, of a bracket and of a forever order.
use nautilus_trader_india.Prelude.{true, none, ◌⊎◌}
use nautilus_trader_india.Dhan.Execution.Submit.{submit_order}
use nautilus_trader_india.Dhan.Execution.Submitted
use nautilus_trader_india.Dhan.Execution.Submitted.{submit_order-Submission}
use nautilus_trader_india.Dhan.Execution.OrderList.{submit_order_list}
use nautilus_trader_india.Dhan.Execution.OrderList.Contract as Bracket
use nautilus_trader_india.Dhan.Execution.OrderList.Contract.{submit_order_list-Submission, bracket}
use nautilus_trader_india.Dhan.Execution.ForeverOrder.{submit_forever_order}
use nautilus_trader_india.Dhan.Execution.ForeverOrder.Contract as Forever
use nautilus_trader_india.Dhan.Execution.ForeverOrder.Contract.{submit_forever_order-Submission}
use nautilus_trader_india.Dhan.Tests.Fixtures.{env, entry, target, stop_loss, client}

submit_order-Submission_example :
    Submitted.Contract env entry client (submit_order env entry client)
submit_order-Submission_example = submit_order-Submission env entry client

submit_order_list-Submission_example :
    let out =
      submit_order_list env
        (record { orders = bracket env entry target stop_loss client; is_bracket = true })
        client in
    Bracket.RaisesAtOnce env entry target stop_loss client out
    ⊎ Bracket.Contract env entry target stop_loss client true out
submit_order_list-Submission_example =
    submit_order_list-Submission env entry target stop_loss client true

submit_forever_order-Submission_example :
    let out = submit_forever_order env stop_loss "CNC" none client in
    Forever.RaisesAtOnce env stop_loss "CNC" none client out
    ⊎ Forever.Contract env stop_loss "CNC" none client out
submit_forever_order-Submission_example =
    submit_forever_order-Submission env stop_loss "CNC" none client
