-- ===== src/Examples/Tests.antt =====
-- A run of examples/dhan_execution.py that places its order, hears that it was accepted, and stops.
use nautilus_trader_india.Prelude.{String, Option, some, List, [], ◌∷◌, pos}
use nautilus_trader_india.Nautilus.{Decimal}
use nautilus_trader_india.Dhan.Exc.{Result, ok}
use nautilus_trader_india.Dhan.Tests.Fixtures.{env}
use nautilus_trader_india.Examples.{execution_main}
use nautilus_trader_india.Examples.PlaceOneOrder.{Heard, order_accepted, quote_tick, launch}
use nautilus_trader_india.Examples.PlaceOneOrder.Runs.{Ends, execution_main-Ends}

abbrev source : String → Option String
source _ = some "1"

abbrev argv : List String
argv = "dhan_execution.py" ∷ "--live" ∷ []

abbrev one_rupee : String → Result Decimal
one_rupee _ = ok (record { coefficient = pos 100; places = 2 })

abbrev heard : List Heard
heard = order_accepted ∷ quote_tick ∷ []

execution_main-Ends_example :
    Ends env argv source one_rupee
      (launch env source one_rupee "S" heard (execution_main argv source))
execution_main-Ends_example = execution_main-Ends env argv source one_rupee "S" heard
