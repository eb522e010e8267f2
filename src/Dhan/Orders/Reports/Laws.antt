-- ===== src/Dhan/Orders/Reports/Laws.antt =====
-- What a report that was built says of its row.
use nautilus_trader_india.Prelude.{
  ◌*◌, ◌^◌, ◌≡◌, ◌↔◌, refl, sym, ◌∙◌, String, Bool, true, false, Option, none, some, List, is_some,
  arith, str_eq, ◌==◌, if◌then◌else◌, Bool-cases, inl, inr,
}
use nautilus_trader_india.Nautilus.{Library, Decimal, Quantity, Instrument}
use nautilus_trader_india.Dhan.Json.{Json, Fields, Number, get, truthy, str_or}
use nautilus_trader_india.Dhan.Exc.{ok, >>=-then}
use nautilus_trader_india.Dhan.Orders.Units.{lots_for}
use nautilus_trader_india.Dhan.Orders.Units.Exact.{lots_for-exact, lots_for-none}
use nautilus_trader_india.Dhan.Orders.Times.{ist_to_ns}
use nautilus_trader_india.Dhan.Orders.Reports.Dead.{IsDeadStatus, reason_in-IsDeadStatus}
use nautilus_trader_india.Dhan.Orders.Correlation.{correlation_id, client_order_id_for}
use nautilus_trader_india.Dhan.Orders.Correlation.Matching.{IsOneOf, found_is_sent}
use nautilus_trader_india.Dhan.Orders.Reports.{
  OrderStatusReport, no_trigger, default, order_status_report, status_of, reason_in, str_of_get,
  first_time,
}
use nautilus_trader_india.Dhan.Orders.Reports.Rows.{
  Reading, decimal_of, value_of, required, number_in, price_or_none, decimal_or_none,
}

-- The units of a row are the contracts of a report times the lot, exactly.
abbrev pub IsExact : Instrument → Number → Quantity → Type 0
IsExact instrument units q =
    let lot = instrument.multiplier in
    (q.places ≡ 0)
    × (units.coefficient * 10 ^ lot.places ≡ q.coefficient * (lot.coefficient * 10 ^ units.places))

-- What a report of an order says, in terms of its row.
pub record Reports (r : Reading) (row : Fields) (instrument : Instrument) (ids : List String)
    (report : OrderStatusReport) : Type 0 where
  pub trigger_iff : (report.trigger_price ≡ none) ↔ (report.trigger_type ≡ no_trigger)
  pub reason_if_dead :
      (words : String) → report.cancel_reason ≡ some words → IsDeadStatus report.order_status
  pub ours_if_known :
      (id : String)
      → report.client_order_id ≡ some id
      → IsOneOf id ids × (correlation_id r.lib id ≡ str_or r.py (get "correlationId" row) "")
  pub quantity_exact :
      (units : Number)
      → get "quantity" row ≡ some (Json.num units)
      → IsExact instrument units report.quantity
  pub filled_exact :
      (units : Number)
      → get "filledQty" row ≡ some (Json.num units)
      → IsExact instrument units report.filled_qty

known_by :
    (lib : Library) (correlation id : String) (ids : List String)
    → client_order_id_for lib correlation ids ≡ some id
    → IsOneOf id ids × (correlation_id lib id ≡ correlation)
unfolding client_order_id_for
known_by lib correlation id ids h = elim (Bool-cases (str_eq correlation "")) [
  | inl e ↦ absurd (ground arith)
  | inr n ↦ found_is_sent lib correlation id ids (ground arith)
]

price_or_none_iff :
    (r : Reading) (v : Option Json) (p : Option Decimal)
    → price_or_none r v ≡ ok p
    → is_some p ≡ value_of v
unfolding price_or_none value_of
price_or_none_iff r none p h = ground arith
price_or_none_iff r (some v) p h = ground arith

trigger_types :
    (p : Option Decimal) (set : Bool)
    → is_some p ≡ set
    → (p ≡ none) ↔ ((if set then default else no_trigger) ≡ no_trigger)
trigger_types none false h = (λ _. refl, λ _. refl)
trigger_types none true h = absurd (cc)
trigger_types (some p) false h = absurd (cc)
trigger_types (some p) true h = (λ e. absurd (cc), λ e. absurd (cc))

-- Where a row has a number, its contracts are that many units.
pub number_in-IsExact :
    (r : Reading) (instrument : Instrument) (v : Option Json) (n : Option Number) (q : Quantity)
    → number_in r v ≡ ok n
    → lots_for instrument n ≡ ok q
    → (units : Number) → v ≡ some (Json.num units)
    → IsExact instrument units q
unfolding decimal_or_none truthy decimal_of
number_in-IsExact r instrument v n q read lots units e =
    elim (Bool-cases (units.coefficient == 0)) [
      | inl z ↦
          let none_read : n ≡ none = ground arith in
          let (p, c) = lots_for-none instrument q (rw (sym none_read) lots) in
          (p, simp c (ground arith))
      | inr nz ↦
          let read_units : n ≡ some units = ground arith in
          let (p, c, _) = lots_for-exact instrument units q (rw (sym read_units) lots) in (p, c)
    ]

-- A report of an order has a trigger price exactly where it has a type of trigger, which is what
-- Nautilus asks. It names a reason only for an order that is rejected, cancelled or expired, it
-- names an id of ours only where that id was sent as what the row echoes, and where the row counts
-- units in a number, its quantities are those units, exactly.
pub order_status_report-Reports :
    (r : Reading) (row : Fields) (instrument : Instrument) (ids : List String)
    (report : OrderStatusReport)
    → order_status_report r row instrument ids ≡ ok report
    → Reports r row instrument ids report
unfolding order_status_report status_of
order_status_report-Reports r row instrument ids report h =
    >>=-then (required r.py "orderId" row) _ _ h λ order_id _ h.
      >>=-then (status_of r.py row) _ _ h λ status status_is h.
        >>=-then (number_in r (get "quantity" row)) _ _ h λ units units_are h.
          >>=-then (lots_for instrument units) _ _ h λ q q_is h.
            >>=-then (number_in r (get "filledQty" row)) _ _ h λ filled filled_are h.
              >>=-then (lots_for instrument filled) _ _ h λ f f_is h.
                >>=-then (price_or_none r (get "price" row)) _ _ h λ price _ h.
                  >>=-then (price_or_none r (get "triggerPrice" row)) _ _ h λ trigger trigger_is h.
                    >>=-then (decimal_or_none r (get "averageTradedPrice" row)) _ _ h λ avg_px _ h.
                      >>=-then (ist_to_ns r.py r.zone (get "createTime" row)) _ _ h
                        λ ts_accepted _ h.
                          >>=-then
                            (first_time r.py r.zone (get "updateTime" row) (get "createTime" row)) _
                            _ h
                            λ ts_last _ h.
                              let q_eq : report.quantity ≡ q = cc in
                              let f_eq : report.filled_qty ≡ f = cc in
                              let status_eq : report.order_status ≡ status = cc in
                              let trigger_eq : report.trigger_price ≡ trigger = cc in
                              let type_eq : report.trigger_type ≡ (
                                  if value_of (get "triggerPrice" row)
                                  then default
                                  else no_trigger) =
                                cc in
                              let ids_eq : report.client_order_id
                                  ≡ client_order_id_for r.lib
                                      (str_or r.py (get "correlationId" row) "") ids =
                                cc in
                              let reason_eq : report.cancel_reason
                                  ≡ reason_in r.py (get "omsErrorDescription" row)
                                      (str_of_get r.py (get "orderStatus" row)) =
                                cc in
                              record {
                                trigger_iff =
                                    rw (trigger_eq, type_eq)
                                      (trigger_types trigger _
                                        (price_or_none_iff r _ trigger trigger_is));
                                reason_if_dead = λ words e. rw status_eq (
                                    reason_in-IsDeadStatus r.py row status _ words status_is
                                      (sym reason_eq ∙ e));
                                ours_if_known = λ id e. known_by r.lib _ id ids (sym ids_eq ∙ e);
                                quantity_exact = λ n e.
                                    rw q_eq
                                      (number_in-IsExact r instrument _ units q units_are q_is n e);
                                filled_exact = λ n e.
                                    rw f_eq (
                                      number_in-IsExact r instrument _ filled f filled_are f_is n
                                        e);
                              }
