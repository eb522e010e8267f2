-- ===== src/Dhan/Tests/Fixtures.antt =====
-- A node with one option in its cache and a venue that acknowledges every order.
use nautilus_trader_india.Prelude.{ℕ, refl, true, false, none, some, [], ◌∷◌, pos, Option}
use nautilus_trader_india.Nautilus.{
  Decimal, Quantity, Order, buy, sell, Instrument, Library, limit, day,
}
use nautilus_trader_india.Dhan.Json.{Json, Items, Fields, Rendering}
use nautilus_trader_india.Dhan.Exc.{ok, err, arithmetic_error}
use nautilus_trader_india.Dhan.Http.{json}
use nautilus_trader_india.Dhan.Config.{ExecConfig}
use nautilus_trader_india.Dhan.Orders.Correlation.Matching.{IsDigest}
use nautilus_trader_india.Core.Calendar.{Zone}
use nautilus_trader_india.Dhan.Orders.Reports.Rows.{Reading}
use nautilus_trader_india.Dhan.Execution.Books.{Books}
use nautilus_trader_india.Dhan.Execution.Client.{Env, Client, Subject}

abbrev pub py : Rendering
py = record { str_of = λ _. ""; repr_of = λ _. "" }

abbrev pub lib : Library
lib = record {
  truthy_quantity = λ _. true;
  truthy_price = λ _. true;
  unpriced = λ _. ok none;
  digest = λ _. "0123456789abcdef01";
}

abbrev pub rupees : Option Decimal
rupees = some (record { coefficient = pos 150; places = 0 })

abbrev pub one_lot : Quantity
one_lot = record { coefficient = 1; places = 0 }

abbrev pub entry : Order
entry = record {
  client_order_id = "O-1";
  strategy_id = "S";
  instrument_id = "NIFTY";
  side = buy;
  order_type = limit;
  time_in_force = day;
  quantity = one_lot;
  price = rupees;
  trigger_price = none;
  display_qty = none;
  venue_order_id = some "7";
}

abbrev pub target : Order
target = record entry {
  client_order_id = "O-2";
  side = sell;
  price = some (record { coefficient = pos 200; places = 0 });
}

abbrev pub stop_loss : Order
stop_loss = record entry {
  client_order_id = "O-3";
  side = sell;
  trigger_price = some (record { coefficient = pos 100; places = 0 });
}

abbrev pub instrument : Instrument
instrument = record {
  id = "NIFTY";
  multiplier = record { coefficient = 65; places = 0 };
  segment_code = some (pos 2);
}

abbrev pub acknowledged : Json
acknowledged = Json.obj (Fields.field "orderId" (Json.text "1") Fields.end)

abbrev pub config : ExecConfig
config = record {
  live_orders = true;
  product_type = "INTRADAY";
  slice_over_freeze_limit = false;
  after_market_order = false;
  amo_time = "OPEN";
}

abbrev pub env : Env
env = record {
  py = py;
  lib = lib;
  config = config;
  live_orders_env = some "1";
  client_id = "1000";
  security_ids = λ _. some "35001";
  instrument = λ _. some instrument;
  order = λ _. some entry;
  client_order_id = λ _. some "O-1";
  orders_open = λ _. entry ∷ [];
  venue = λ _ _. json acknowledged;
}

-- Kolkata is five and a half hours ahead.
abbrev pub kolkata : Zone
kolkata local = 19_800

abbrev pub reading : Reading
reading = record {
  py = py;
  lib = lib;
  zone = kolkata;
  price_from = λ _. ok (record { coefficient = pos 150; places = 0 });
  decimal_from = λ _. err arithmetic_error;
  int_from = λ _. ok (pos 0);
}

abbrev pub whole : ℕ → Json
whole n = Json.num (record { negative = false; coefficient = n; places = 0 })

-- A row of the order book: an order of ours for one lot, rejected.
abbrev pub order_row : Fields
order_row = Fields.field "orderId" (Json.text "7") (
    Fields.field "orderStatus" (Json.text "REJECTED") (
      Fields.field "exchangeSegment" (Json.text "NSE_FNO") (
        Fields.field "securityId" (Json.text "35001") (
          Fields.field "transactionType" (Json.text "BUY") (
            Fields.field "correlationId" (Json.text "O-1") (
              Fields.field "quantity" (whole 65) (
                Fields.field "triggerPrice" (whole 150)
                  (Fields.field "omsErrorDescription" (Json.text "margin") Fields.end))))))))

abbrev pub books : Books
books = record {
  reading = reading;
  by_security = λ _ _. some "NIFTY";
  cached = λ _. some instrument;
  find = λ _. none;
  client_order_ids = "O-2" ∷ "O-1" ∷ [];
  answers = λ _. json (Json.arr (Items.cons (Json.obj order_row) Items.nil));
}

abbrev pub client : Client
client = record { is_degraded_by_ip = false; sent = []; events = [] }

abbrev pub subject : Subject
subject = record { strategy_id = "S"; instrument_id = "NIFTY"; client_order_id = "O-1" }

pub lib-IsDigest : IsDigest lib
lib-IsDigest = record {
  size = λ s. refl;
  hex = λ s. (
    refl,
    (
      refl,
      (
        refl,
        (
          refl,
          (
            refl,
            (
              refl,
              (
                refl,
                (
                  refl,
                  (
                    refl,
                    (refl, (refl, (refl, (refl, (refl, (refl, (refl, (refl, (refl, tt))))))))),
                  ),
                ),
              ),
            ),
          ),
        ),
      ),
    ),
  );
}
