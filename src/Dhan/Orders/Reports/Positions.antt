-- ===== src/Dhan/Orders/Reports/Positions.antt =====
-- What the report of a position says of its row.
use nautilus_trader_india.Prelude.{
  ◌≡◌, ◌≢◌, ◌∙◌, ap, true, false, Option, some, arith, not, if◌then◌else◌,
}
use nautilus_trader_india.Nautilus.{Instrument}
use nautilus_trader_india.Dhan.Json.{Json, Fields, Number, get, truthy, str_or}
use nautilus_trader_india.Dhan.Exc.{ok, >>=-then}
use nautilus_trader_india.Dhan.Orders.Units.{lots_for}
use nautilus_trader_india.Dhan.Orders.Times.{ist_to_ns}
use nautilus_trader_india.Dhan.Orders.Reports.{
  PositionStatusReport, flat, side_named, is_flat, is_positive, position_status_report,
}
use nautilus_trader_india.Dhan.Orders.Reports.Laws.{IsExact, number_in-IsExact}
use nautilus_trader_india.Dhan.Orders.Reports.Rows.{Reading, decimal_of, number_in, decimal_or_none}

-- What a report of a position says, where the row's net quantity is the number `net`.
pub record Holds (r : Reading) (row : Fields) (instrument : Instrument) (net : Number)
    (report : PositionStatusReport) : Type 0 where
  pub flat_if_zero : net.coefficient ≡ 0 → report.position_side ≡ flat
  pub exact : IsExact instrument net report.quantity
  pub bought_at :
      net.negative ≡ false
      → net.coefficient ≢ 0
      → decimal_or_none r (get "buyAvg" row) ≡ ok report.avg_px_open
  pub sold_at : net.negative ≡ true → decimal_or_none r (get "sellAvg" row) ≡ ok report.avg_px_open

number_in-zero :
    (r : Reading) (v : Option Json) (n : Option Number) (net : Number)
    → v ≡ some (Json.num net)
    → number_in r v ≡ ok n
    → net.coefficient ≡ 0
    → is_flat n ≡ true
unfolding decimal_or_none truthy decimal_of is_flat
number_in-zero r v n net e h z = ground arith

number_in-positive :
    (r : Reading) (v : Option Json) (n : Option Number) (net : Number)
    → v ≡ some (Json.num net)
    → number_in r v ≡ ok n
    → net.coefficient ≢ 0
    → is_positive n ≡ not net.negative
unfolding decimal_or_none truthy decimal_of is_positive
number_in-positive r v n net e h nz = ground arith

number_in-negative :
    (r : Reading) (v : Option Json) (n : Option Number) (net : Number)
    → v ≡ some (Json.num net)
    → number_in r v ≡ ok n
    → net.negative ≡ true
    → is_positive n ≡ false
unfolding decimal_or_none truthy decimal_of is_positive
number_in-negative r v n net e h neg = ground arith

-- The report of a position whose net quantity is a number holds that number of units, exactly. It
-- is flat where that number is zero, whatever type the row names, and its opening price is the
-- average that was paid for a long position and the average that was received for a short one.
pub position_status_report-Holds :
    (r : Reading) (row : Fields) (instrument : Instrument) (net : Number)
    (report : PositionStatusReport)
    → get "netQty" row ≡ some (Json.num net)
    → position_status_report r row instrument ≡ ok report
    → Holds r row instrument net report
unfolding position_status_report
position_status_report-Holds r row instrument net report e h =
    >>=-then (side_named (str_or r.py (get "positionType" row) "")) _ _ h λ side _ h.
      >>=-then (number_in r (get "netQty" row)) _ _ h λ n n_is h.
        >>=-then (lots_for instrument n) _ _ h λ q q_is h.
          >>=-then
            (decimal_or_none r (if is_positive n then get "buyAvg" row else get "sellAvg" row)) _ _
            h
            λ avg_px avg_is h.
              >>=-then (ist_to_ns r.py r.zone (get "updateTime" row)) _ _ h λ ts_last _ h.
                let q_eq : report.quantity ≡ q = cc in
                let side_eq : report.position_side ≡ (if is_flat n then flat else side) = cc in
                let avg_eq : report.avg_px_open ≡ avg_px = cc in
                record {
                  flat_if_zero = λ z. rw side_eq (rw (number_in-zero r _ n net e n_is z));
                  exact = rw q_eq (number_in-IsExact r instrument _ n q n_is q_is net e);
                  bought_at = λ pos nz.
                      let p : is_positive n ≡ true =
                        number_in-positive r _ n net e n_is nz ∙ ap not pos in
                      let avg_is : decimal_or_none r (get "buyAvg" row) ≡ ok avg_px =
                        ground arith in
                      rw avg_eq avg_is;
                  sold_at = λ neg.
                      let p = number_in-negative r _ n net e n_is neg in
                      let avg_is : decimal_or_none r (get "sellAvg" row) ≡ ok avg_px =
                        ground arith in
                      rw avg_eq avg_is;
                }
