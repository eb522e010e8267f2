-- ===== src/Dhan/SuperOrders/Reports/Legs.antt =====
-- Under which ids the legs of a super order are reported.
use nautilus_trader_india.Prelude.{
  ◌≡◌, refl, String, Option, List, [], ◌∷◌, map, str_eq, arith, if◌then◌else◌, Bool-cases, inl, inr,
  subst,
}
use nautilus_trader_india.Nautilus.{OrderSide, Instrument}
use nautilus_trader_india.Dhan.Json.{Json, Items, Fields, get, str_or}
use nautilus_trader_india.Dhan.Exc.{ok, ◌>>=◌, >>=-then}
use nautilus_trader_india.Dhan.Constants.{leg_entry, leg_names, is_member}
use nautilus_trader_india.Dhan.Orders.Reports.{side_of}
use nautilus_trader_india.Dhan.Orders.Reports.Rows.{Reading, required}
use nautilus_trader_india.Dhan.SuperOrders.{leg_venue_order_id}
use nautilus_trader_india.Dhan.SuperOrders.Reports.{
  LegReport, leg_quantity, report, name_of, leg_reports, legs_of, row_reports, id_of_entry,
}

-- The names of the legs that are reported.
abbrev pub named_legs : Reading → Items → List String
named_legs r Items.nil = []
named_legs r (Items.cons (Json.obj leg) legs) =
    let rest = named_legs r legs in
    if is_member (name_of r leg) leg_names then name_of r leg ∷ rest else rest
named_legs r (Items.cons _ legs) = []

report-venue_order_id :
    (r : Reading) (row : Fields) (instrument : Instrument) (leg_name : String) (side : OrderSide)
    (quantity price : Option Json) (parent : Fields) (order_id : String) (built : LegReport)
    → required r.py "orderId" parent ≡ ok order_id
    → report r row instrument leg_name side quantity price parent ≡ ok built
    → built.venue_order_id ≡ leg_venue_order_id order_id leg_name
unfolding report
report-venue_order_id r row instrument leg_name side quantity price parent order_id built at h =
    ground arith

report-client_order_id :
    (r : Reading) (row : Fields) (instrument : Instrument) (leg_name : String) (side : OrderSide)
    (quantity price : Option Json) (parent : Fields) (built : LegReport)
    → report r row instrument leg_name side quantity price parent ≡ ok built
    → built.client_order_id
      ≡ id_of_entry (str_eq leg_name leg_entry) (str_or r.py (get "correlationId" parent) "")
unfolding report
report-client_order_id r row instrument leg_name side quantity price parent built h = ground arith

module _ (r : Reading) (instrument : Instrument) (row : Fields) (order_id : String) where
  -- The two ids of the report of a leg.
  abbrev pub ids_for : String → String × Option String
  ids_for name = (
    leg_venue_order_id order_id name,
    id_of_entry (str_eq name leg_entry) (str_or r.py (get "correlationId" row) ""),
  )

  abbrev pub ids_of : LegReport → String × Option String
  ids_of built = (built.venue_order_id, built.client_order_id)

  report-ids_for :
      (leg : Fields) (name : String) (side : OrderSide) (quantity price : Option Json)
      (built : LegReport)
      → required r.py "orderId" row ≡ ok order_id
      → report r leg instrument name side quantity price row ≡ ok built
      → ids_of built ≡ ids_for name
  report-ids_for leg name side quantity price built at h =
      let venue =
        report-venue_order_id r leg instrument name side quantity price row order_id built at h in
      let client = report-client_order_id r leg instrument name side quantity price row built h in
      cc

  leg_reports-ids_for :
      (legs : Items) (reports : List LegReport)
      → required r.py "orderId" row ≡ ok order_id
      → leg_reports r instrument row legs ≡ ok reports
      → map ids_of reports ≡ map ids_for (named_legs r legs)
  unfolding leg_reports
  leg_reports-ids_for Items.nil reports at h =
      let e : [] ≡ reports = cc in subst (λ rs. map ids_of rs ≡ []) e refl
  leg_reports-ids_for (Items.cons (Json.obj leg) legs) reports at h =
      elim (Bool-cases (is_member (name_of r leg) leg_names)) [
        | inl known ↦
            let m =
              report r leg instrument (name_of r leg) (side_of leg) (leg_quantity leg row)
                (get "price" leg) row in
            let h : m
                  >>= (λ first. leg_reports r instrument row legs >>= λ others. ok (first ∷ others))
                ≡ ok reports =
              ground arith in
            >>=-then m _ _ h λ first first_is h.
              >>=-then (leg_reports r instrument row legs) _ _ h λ others others_are h.
                let e : first ∷ others ≡ reports = cc in
                let head = report-ids_for leg _ _ _ _ first at first_is in
                let tail = leg_reports-ids_for legs others at others_are in
                subst
                  (λ rs.
                    map ids_of rs ≡ map ids_for (named_legs r (Items.cons (Json.obj leg) legs)))
                  e (rw known (rw head (rw tail)))
        | inr other ↦
            let h : leg_reports r instrument row legs ≡ ok reports = ground arith in
            rw other (leg_reports-ids_for legs reports at h)
      ]
  leg_reports-ids_for (Items.cons Json.null legs) reports at h = absurd (cc)
  leg_reports-ids_for (Items.cons (Json.bool b) legs) reports at h = absurd (cc)
  leg_reports-ids_for (Items.cons (Json.num n) legs) reports at h = absurd (cc)
  leg_reports-ids_for (Items.cons (Json.text s) legs) reports at h = absurd (cc)
  leg_reports-ids_for (Items.cons (Json.arr vs) legs) reports at h = absurd (cc)

  -- The reports of a super order are one for its entry and one for each of its named legs, in the
  -- order in which Dhan lists them. The entry is reported under the order's own id and with the
  -- correlation id that the row echoes, and each other leg under an id that names the leg, with no
  -- id of ours.
  pub row_reports-ids_for :
      (reports : List LegReport)
      → required r.py "orderId" row ≡ ok order_id
      → row_reports r instrument row ≡ ok reports
      → (legs : Items) × (legs_of (get "legDetails" row) ≡ ok legs)
        × (map ids_of reports ≡ map ids_for (leg_entry ∷ named_legs r legs))
  unfolding row_reports
  row_reports-ids_for reports at h =
      >>=-then
        (report r row instrument leg_entry (side_of row) (get "quantity" row) (get "price" row) row)
        _ _ h
        λ entry entry_is h. >>=-then (legs_of (get "legDetails" row)) _ _ h λ legs legs_are h.
          >>=-then (leg_reports r instrument row legs) _ _ h λ others others_are h.
            let e : entry ∷ others ≡ reports = cc in
            let head = report-ids_for row _ _ _ _ entry at entry_is in
            let tail = leg_reports-ids_for legs others at others_are in
            (
              legs,
              legs_are,
              subst (λ rs. map ids_of rs ≡ map ids_for (leg_entry ∷ named_legs r legs)) e
                  (rw head (rw tail)),
            )
