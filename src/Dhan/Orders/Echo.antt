-- ===== src/Dhan/Orders/Echo.antt =====
-- Both halves of nautilus_india/dhan/orders.py: an order that is sent, and the report of the row that
-- echoes it.
use mathlib.Core.Bool.{false≢true}
use native.Mathlib.Nat.{mul-div_cancel}
use nautilus_trader_india.Prelude.{
  ℕ, ◌*◌, ◌/◌, ◌^◌, ◌≡◌, ◌≢◌, ◌↔◌, refl, sym, ap, subst, ◌∙◌, String, Bool, true, Option, some,
  List, arith, str_eq, eq_iff, codes, length, if◌then◌else◌, ◌&&◌, leb, Bool-cases, inl, inr,
}
use nautilus_trader_india.Nautilus.{
  Order, Instrument, Library, Quantity, OrderSide, buy, sell, no_order_side, OrderType, limit,
  stop_limit, stop_market, TimeInForce, gtc,
}
use nautilus_trader_india.Nautilus
use nautilus_trader_india.Dhan.Json.{Json, Fields, Rendering, get, str_or}
use nautilus_trader_india.Dhan.Exc.{ok, >>=-then}
use nautilus_trader_india.Dhan.Orders.Units.{units_for, lots_for, contracts}
use nautilus_trader_india.Dhan.Orders.Units.Exact.{whole_units, units_of_contracts}
use nautilus_trader_india.Dhan.Orders.Times.{ist_to_ns}
use nautilus_trader_india.Dhan.Orders.Correlation.{
  correlation_id, client_order_id_for, matches_safe,
}
use nautilus_trader_india.Dhan.Orders.Correlation.Matching.{
  IsDigest, IsDistinct, IsOneOf, client_order_id_for_iff,
}
use nautilus_trader_india.Dhan.Orders.Payload.{
  PlacePayload, place_payload, side_name, order_type_for, validity_for,
}
use nautilus_trader_india.Dhan.Orders.Reports
use nautilus_trader_india.Dhan.Orders.Reports.{
  OrderStatusReport, order_status_report, status_of, side_of, first_time,
}
use nautilus_trader_india.Dhan.Orders.Reports.Rows.{
  Reading, is_text, required, number_in, price_or_none, decimal_or_none,
}
use nautilus_trader_india.Dhan.Orders.Reports.Laws.{IsExact, order_status_report-Reports}

-- The fields of a row that carry what was sent.
pub record Echoes (row : Fields) (p : PlacePayload) : Type 0 where
  pub correlation : get "correlationId" row ≡ some (Json.text p.correlation_id)
  pub side : get "transactionType" row ≡ some (Json.text p.transaction_type)
  pub order_type : get "orderType" row ≡ some (Json.text p.order_type)
  pub validity : get "validity" row ≡ some (Json.text p.validity)
  pub quantity : get "quantity" row ≡ some (Json.num (whole_units p.quantity))

-- The report is of the order: under its own id, on its side and for its contracts. Of its type and
-- validity it tells whether they are MARKET and IOC.
pub record IsOf (order : Order) (report : OrderStatusReport) : Type 0 where
  pub ours : report.client_order_id ≡ some order.client_order_id
  pub side : report.order_side ≡ order.side
  pub quantity : report.quantity ≡ order.quantity
  pub market_iff : (report.order_type ≡ Reports.market) ↔ (order.order_type ≡ Nautilus.market)
  pub ioc_iff : (report.time_in_force ≡ Reports.ioc) ↔ (order.time_in_force ≡ Nautilus.ioc)

record Read (r : Reading) (row : Fields) (ids : List String) (report : OrderStatusReport)
    : Type 0 where
  ours :
      report.client_order_id
      ≡ client_order_id_for r.lib (str_or r.py (get "correlationId" row) "") ids
  side : report.order_side ≡ side_of row
  order_type :
      report.order_type
      ≡ (if is_text (get "orderType" row) "MARKET" then Reports.market else Reports.limit)
  validity :
      report.time_in_force
      ≡ (if is_text (get "validity" row) "IOC" then Reports.ioc else Reports.day)

report-Read :
    (r : Reading) (row : Fields) (instrument : Instrument) (ids : List String)
    (report : OrderStatusReport)
    → order_status_report r row instrument ids ≡ ok report
    → Read r row ids report
unfolding order_status_report
report-Read r row instrument ids report h =
    >>=-then (required r.py "orderId" row) _ _ h λ order_id _ h.
      >>=-then (status_of r.py row) _ _ h λ status _ h.
        >>=-then (number_in r (get "quantity" row)) _ _ h λ units _ h.
          >>=-then (lots_for instrument units) _ _ h λ q _ h.
            >>=-then (number_in r (get "filledQty" row)) _ _ h λ filled _ h.
              >>=-then (lots_for instrument filled) _ _ h λ f _ h.
                >>=-then (price_or_none r (get "price" row)) _ _ h λ price _ h.
                  >>=-then (price_or_none r (get "triggerPrice" row)) _ _ h λ trigger _ h.
                    >>=-then (decimal_or_none r (get "averageTradedPrice" row)) _ _ h λ avg_px _ h.
                      >>=-then (ist_to_ns r.py r.zone (get "createTime" row)) _ _ h
                        λ ts_accepted _ h.
                          >>=-then
                            (first_time r.py r.zone (get "updateTime" row) (get "createTime" row)) _
                            _ h
                            λ ts_last _ h. record {
                              ours = cc;
                              side = cc;
                              order_type = cc;
                              validity = cc;
                            }

-- What a payload says of its order, for the fields that come back.
record Sent (lib : Library) (order : Order) (instrument : Instrument) (p : PlacePayload)
    : Type 0 where
  id : p.correlation_id ≡ correlation_id lib order.client_order_id
  side : side_name order.side ≡ ok p.transaction_type
  order_type : order_type_for order.order_type ≡ ok p.order_type
  validity : validity_for order.time_in_force ≡ ok p.validity
  quantity : p.quantity ≡ units_for instrument order.quantity

payload-Sent :
    (lib : Library) (order : Order) (instrument : Instrument)
    (security_id client_id product : String) (amo : Bool) (amo_time : String) (p : PlacePayload)
    → place_payload lib order instrument security_id client_id product amo amo_time ≡ ok p
    → Sent lib order instrument p
unfolding place_payload
payload-Sent lib order instrument security_id client_id product amo amo_time p h = record {
  id = ground arith;
  side = ground arith;
  order_type = ground arith;
  validity = ground arith;
  quantity = ground arith;
}

correlation_id_nonempty : (lib : Library) (id : String) → IsDigest lib → correlation_id lib id ≢ ""
unfolding correlation_id matches_safe
correlation_id_nonempty lib id digest empty =
    elim (Bool-cases (leb (length (codes id)) 25 && matches_safe (codes id))) [
      | inl sent ↦
          let same : id ≡ "" = ground arith in
          let safe : matches_safe (codes id) ≡ true = ground arith in
          absurd (false≢true (sym (ap (λ x. matches_safe (codes x)) same) ∙ safe))
      | inr hashed ↦
          let same : lib.digest id ≡ "" = ground arith in
          absurd (omega (arith, digest.size id, ap (λ x. length (codes x)) same))
    ]

ok-injective : (a b : String) → ok a ≡ ok b → a ≡ b
ok-injective a b h = cc

-- A word that was sent is the one that comes back.
text_read :
    (v : Option Json) (sent word asked : String)
    → ok sent ≡ ok word
    → v ≡ some (Json.text word)
    → is_text v asked ≡ str_eq sent asked
unfolding is_text
text_read v sent word asked h e = rw e (ap (λ w. str_eq w asked) (sym (ok-injective sent word h)))

module _ (row : Fields) (word : String) where
  side_read :
      (side : OrderSide)
      → side_name side ≡ ok word
      → get "transactionType" row ≡ some (Json.text word)
      → side_of row ≡ side
  unfolding side_name side_of
  side_read buy h e = rw (text_read _ "BUY" word "BUY" h e) refl
  side_read sell h e = rw (text_read _ "SELL" word "BUY" h e) refl
  side_read no_order_side h e = absurd (cc)

  type_read :
      (order_type : OrderType)
      → order_type_for order_type ≡ ok word
      → get "orderType" row ≡ some (Json.text word)
      → ((if is_text (get "orderType" row) "MARKET" then Reports.market else Reports.limit)
          ≡ Reports.market)
        ↔ (order_type ≡ Nautilus.market)
  unfolding order_type_for
  type_read limit h e =
      rw (text_read _ "LIMIT" word "MARKET" h e) (λ k. absurd (cc), λ k. absurd (cc))
  type_read Nautilus.market h e = rw (text_read _ "MARKET" word "MARKET" h e) (λ k. refl, λ k. refl)
  type_read stop_limit h e =
      rw (text_read _ "STOP_LOSS" word "MARKET" h e) (λ k. absurd (cc), λ k. absurd (cc))
  type_read stop_market h e =
      rw (text_read _ "STOP_LOSS_MARKET" word "MARKET" h e) (λ k. absurd (cc), λ k. absurd (cc))
  type_read (OrderType.other n) h e = absurd (cc)

  validity_read :
      (validity : TimeInForce)
      → validity_for validity ≡ ok word
      → get "validity" row ≡ some (Json.text word)
      → ((if is_text (get "validity" row) "IOC" then Reports.ioc else Reports.day) ≡ Reports.ioc)
        ↔ (validity ≡ Nautilus.ioc)
  unfolding validity_for
  validity_read gtc h e = rw (text_read _ "DAY" word "IOC" h e) (λ k. absurd (cc), λ k. absurd (cc))
  validity_read Nautilus.day h e =
      rw (text_read _ "DAY" word "IOC" h e) (λ k. absurd (cc), λ k. absurd (cc))
  validity_read Nautilus.ioc h e = rw (text_read _ "IOC" word "IOC" h e) (λ k. refl, λ k. refl)
  validity_read (TimeInForce.other n) h e = absurd (cc)

-- The contracts that were sent in units are those that are counted back.
contracts_read :
    (instrument : Instrument) (n : ℕ) (q : Quantity)
    → instrument.multiplier.places ≡ 0
    → instrument.multiplier.coefficient ≢ 0
    → IsExact instrument (whole_units (units_for instrument (contracts n))) q
    → q ≡ contracts n
contracts_read instrument n q whole positive (places, exact) =
    let m = instrument.multiplier.coefficient in
    let sent = units_of_contracts instrument n whole in
    let counted : units_for instrument (contracts n) * 10 ^ 0 ≡ q.coefficient * (m * 1) =
      subst (λ t. units_for instrument (contracts n) * 10 ^ t ≡ q.coefficient * (m * 1)) whole
        exact in
    let same : n * m ≡ q.coefficient * m = grind (arith, sent, counted) in
    let divided : n * m / m ≡ q.coefficient * m / m = ap (λ t. t / m) same in
    ground (
      arith,
      mul-div_cancel n {n = m} (omega arith),
      mul-div_cancel (q.coefficient) {n = m} (omega arith),
    )

echoed_id :
    (py : Rendering) (row : Fields) (id : String)
    → get "correlationId" row ≡ some (Json.text id)
    → str_or py (get "correlationId" row) "" ≡ id
unfolding str_or
echoed_id py row id e = rw e (elim (Bool-cases (str_eq id "")) [
  | inl empty ↦ ground (arith, eq_iff id "")
  | inr set ↦ rw set refl
])

-- An order for whole contracts that is sent, on an instrument with a whole lot, comes back as itself:
-- a report of a row that echoes what was sent is under the order's own id, on its side and for its
-- contracts, and tells a market order from others and IOC from others; provided that the order is
-- known and that no two known orders share a correlation id.
pub order_status_report-IsOf :
    (r : Reading) (order : Order) (instrument : Instrument) (n : ℕ)
    (security_id client_id product : String) (amo : Bool) (amo_time : String) (p : PlacePayload)
    (row : Fields) (ids : List String) (report : OrderStatusReport)
    → IsDigest r.lib
    → order.quantity ≡ contracts n
    → instrument.multiplier.places ≡ 0
    → instrument.multiplier.coefficient ≢ 0
    → IsDistinct r.lib ids
    → IsOneOf order.client_order_id ids
    → place_payload r.lib order instrument security_id client_id product amo amo_time ≡ ok p
    → Echoes row p
    → order_status_report r row instrument ids ≡ ok report
    → IsOf order report
order_status_report-IsOf r order instrument n security_id client_id product amo amo_time p row ids
      report digest whole_order whole positive distinct known built echoes reported =
    let sent =
      payload-Sent r.lib order instrument security_id client_id product amo amo_time p built in
    let read = report-Read r row instrument ids report reported in
    let exact = (order_status_report-Reports r row instrument ids report reported).quantity_exact in
    let sent_id = echoed_id r.py row p.correlation_id echoes.correlation ∙ sent.id in
    let units = sent.quantity ∙ ap (units_for instrument) whole_order in
    record {
      ours =
          read.ours
          ∙ (client_order_id_for_iff r.lib _ order.client_order_id ids distinct).1 (
            λ empty.
                correlation_id_nonempty r.lib order.client_order_id digest (sym sent_id ∙ empty),
            known,
            sym sent_id,
          );
      side = read.side ∙ side_read row p.transaction_type order.side sent.side echoes.side;
      quantity =
          contracts_read instrument n report.quantity whole positive
            (rw (sym units) (exact (whole_units p.quantity) echoes.quantity))
          ∙ sym whole_order;
      market_iff =
          rw read.order_type
            (type_read row p.order_type order.order_type sent.order_type echoes.order_type);
      ioc_iff =
          rw read.validity
            (validity_read row p.validity order.time_in_force sent.validity echoes.validity);
    }
