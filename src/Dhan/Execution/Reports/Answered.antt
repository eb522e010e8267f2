-- ===== src/Dhan/Execution/Reports/Answered.antt =====
-- A failed read is not an empty book.
use mathlib.Core.Bool.{false≢true}
use nautilus_trader_india.Prelude.{
  ◌≡◌, refl, String, true, Option, none, some, List, [], ◌∷◌, ◌++◌, arith, sym, ap, ◌∙◌, ◌≢◌, codes,
  lower, is_infix, Bool-cases, subst, ◌↔◌, ◌⊎◌, inl, inr,
}
use nautilus_trader_india.Dhan.Json.{Json, Items, Fields}
use nautilus_trader_india.Nautilus.{Instrument}
use nautilus_trader_india.Dhan.Exc.{
  Failure, Exc, transport_error, ambiguous, dhan_api_error, ip_not_whitelisted, rate_limited,
  unsendable, lookup_error, key_error, value_error, type_error, attribute_error, arithmetic_error,
  index_error, struct_error, Result, ok, err, ◌>>=◌, >>=-then,
}
use nautilus_trader_india.Dhan.Constants.{orders_path, trades_path, positions_path}
use nautilus_trader_india.Dhan.Orders.Reports.{
  OrderStatusReport, order_status_report, fill_report, position_status_report,
}
use nautilus_trader_india.Dhan.Execution.Lookup.{lookup_path}
use nautilus_trader_india.Dhan.Execution.Books.{Books, reports_from, reports_in, as_rows}
use nautilus_trader_india.Dhan.Orders.Reports.Rows.{rows_of}
use nautilus_trader_india.Dhan.Execution.Books.Mapped.{Mapped, reports_in_iff}
use nautilus_trader_india.Dhan.Execution.Reports.{
  MassStatus, asked, is_no_such_order, extra_ids, first_of, single_report,
  generate_order_status_report, generate_order_status_reports, generate_position_status_reports,
  generate_mass_status,
}

-- The reports are those of a book that was read: the venue answered, the answer has rows, and
-- these are the reports of the rows.
abbrev pub IsAnsweredBy :
    {A : Type 0} → Books → (Fields → Instrument → Result A) → String → List A → Type 0
IsAnsweredBy books build path reports =
    (body : Json) × (rows : Items) × (asked books path ≡ ok body)
    × (rows_of body ≡ ok rows)
    × Mapped books build rows reports

-- A read of a book and its reports.
abbrev reports_at :
    {A : Type 0} → Books → (Fields → Instrument → Result A) → String → Result (List A)
reports_at books build path = asked books path >>= reports_from books build

module _ {A : Type 0} (books : Books) (build : Fields → Instrument → Result A) (path : String) where
  reports_at-IsAnsweredBy :
      (reports : List A)
      → reports_at books build path ≡ ok reports
      → IsAnsweredBy books build path reports
  unfolding reports_from
  reports_at-IsAnsweredBy reports h = >>=-then (asked books path) _ _ h λ body body_is h.
      >>=-then (rows_of body) _ _ h λ rows rows_are h.
        (body, rows, body_is, rows_are, (reports_in_iff books build rows reports).0 h)

  reports_from-of_Mapped :
      (body : Json) (rows : Items) (reports : List A)
      → rows_of body ≡ ok rows
      → Mapped books build rows reports
      → reports_from books build body ≡ ok reports
  unfolding reports_from
  reports_from-of_Mapped body rows reports rows_are mapped =
      rw rows_are ((reports_in_iff books build rows reports).1 mapped)

  reports_at-of_IsAnsweredBy :
      (reports : List A)
      → IsAnsweredBy books build path reports
      → reports_at books build path ≡ ok reports
  reports_at-of_IsAnsweredBy reports (body, rows, body_is, rows_are, mapped) =
      rw body_is (reports_from-of_Mapped body rows reports rows_are mapped)

-- What each of the three books is read with.
abbrev pub order_builder : Books → Fields → Instrument → Result OrderStatusReport
order_builder books row instrument =
    order_status_report books.reading row instrument books.client_order_ids

-- The reports of a status are those of the three books.
abbrev pub AreAnswered : Books → MassStatus → Type 0
AreAnswered books status =
    IsAnsweredBy books (order_builder books) orders_path status.order_reports
    × IsAnsweredBy books (fill_report books.reading) trades_path status.fill_reports
    × IsAnsweredBy books (position_status_report books.reading) positions_path
        status.position_reports

generate_mass_status-AreAnswered :
    (books : Books) (status : MassStatus)
    → generate_mass_status books ≡ ok status
    → AreAnswered books status
unfolding generate_mass_status generate_order_status_reports generate_position_status_reports
generate_mass_status-AreAnswered books status h =
    >>=-then (generate_order_status_reports books) _ _ h λ orders orders_are h.
      >>=-then (asked books trades_path) _ _ h λ trades trades_are h.
        >>=-then (reports_from books (fill_report books.reading) trades) _ _ h λ fills fills_are h.
          >>=-then (generate_position_status_reports books) _ _ h λ positions positions_are h.
            let o_eq : status.order_reports ≡ orders = cc in
            let f_eq : status.fill_reports ≡ fills = cc in
            let p_eq : status.position_reports ≡ positions = cc in
            (
              rw o_eq (
                  reports_at-IsAnsweredBy books (order_builder books) orders_path orders
                    orders_are),
              rw f_eq (
                  reports_at-IsAnsweredBy books (fill_report books.reading) trades_path fills
                    (rw trades_are fills_are)),
              rw p_eq (
                  reports_at-IsAnsweredBy books (position_status_report books.reading)
                    positions_path positions positions_are),
            )

generate_mass_status-of_AreAnswered :
    (books : Books) (status : MassStatus)
    → AreAnswered books status
    → generate_mass_status books ≡ ok status
unfolding generate_mass_status generate_order_status_reports generate_position_status_reports
generate_mass_status-of_AreAnswered books status
      (o, (trades, rows, trades_are, rows_are, mapped), p) =
    rw (reports_at-of_IsAnsweredBy books (order_builder books) orders_path status.order_reports o) (
      rw trades_are (
        rw
          (reports_from-of_Mapped books (fill_report books.reading) trades_path trades rows
            status.fill_reports rows_are mapped)
          (rw (
            reports_at-of_IsAnsweredBy books (position_status_report books.reading) positions_path
              status.position_reports p))))

-- A mass status holds the reports of three books that were each read, and no others: where one of
-- the reads fails, or one row that names a loaded instrument has no report, there is no status.
pub generate_mass_status_iff :
    (books : Books) (status : MassStatus)
    → (generate_mass_status books ≡ ok status) ↔ AreAnswered books status
generate_mass_status_iff books status = (
  generate_mass_status-AreAnswered books status,
  generate_mass_status-of_AreAnswered books status,
)

-- What one order is read with.
abbrev pub builder_with : Books → List String → Fields → Instrument → Result OrderStatusReport
builder_with books extra row instrument =
    order_status_report books.reading row instrument (extra ++ books.client_order_ids)

-- What Dhan says of an order that it does not have.
abbrev pub IsNoSuchOrder : Failure → Type 0
IsNoSuchOrder f = is_infix (codes "incorrect request for order") (lower (codes f.reason)) ≡ true

-- Why there is no report of one order, from what its read returned.
abbrev pub IsAbsent : Books → List String → Result Json → Type 0
IsAbsent books extra read =
    ((f : Failure) × (read ≡ err (dhan_api_error f)) × IsNoSuchOrder f)
    ⊎ ((body : Json) × (read ≡ ok body) × Mapped books (builder_with books extra) (as_rows body) [])

first_of-none : {A : Type 0} (reports : List A) → first_of reports ≡ none → reports ≡ []
first_of-none [] h = refl
first_of-none (report ∷ reports) h = absurd (cc)

single_report-IsAbsent :
    (books : Books) (extra : List String) (read : Result Json)
    → single_report books extra read ≡ ok none
    → IsAbsent books extra read
unfolding single_report is_no_such_order
single_report-IsAbsent books extra (err (dhan_api_error f)) h = inl (f, refl, ground arith)
single_report-IsAbsent books extra (ok body) h =
    >>=-then (reports_in books (builder_with books extra) (as_rows body)) _ _ h
      λ reports reports_are h.
        let e : reports ≡ [] = first_of-none reports (cc) in
        inr (
          body,
          refl,
          subst (λ rs. Mapped books (builder_with books extra) (as_rows body) rs) e
              ((reports_in_iff books (builder_with books extra) (as_rows body) reports).0
                reports_are),
        )
single_report-IsAbsent books extra (err (transport_error f)) h = absurd (cc)
single_report-IsAbsent books extra (err (ambiguous f)) h = absurd (cc)
single_report-IsAbsent books extra (err (ip_not_whitelisted f)) h = absurd (cc)
single_report-IsAbsent books extra (err (rate_limited f)) h = absurd (cc)
single_report-IsAbsent books extra (err (unsendable r)) h = absurd (cc)
single_report-IsAbsent books extra (err lookup_error) h = absurd (cc)
single_report-IsAbsent books extra (err key_error) h = absurd (cc)
single_report-IsAbsent books extra (err value_error) h = absurd (cc)
single_report-IsAbsent books extra (err type_error) h = absurd (cc)
single_report-IsAbsent books extra (err attribute_error) h = absurd (cc)
single_report-IsAbsent books extra (err arithmetic_error) h = absurd (cc)
single_report-IsAbsent books extra (err index_error) h = absurd (cc)
single_report-IsAbsent books extra (err struct_error) h = absurd (cc)

single_report-of_IsAbsent :
    (books : Books) (extra : List String) (read : Result Json)
    → IsAbsent books extra read
    → single_report books extra read ≡ ok none
unfolding single_report is_no_such_order
single_report-of_IsAbsent books extra read (inl (f, e, is_so)) = rw e (rw is_so)
single_report-of_IsAbsent books extra read (inr (body, e, mapped)) =
    rw e (rw ((reports_in_iff books (builder_with books extra) (as_rows body) []).1 mapped))

-- How the lookup of one order ends, from what its read returned.
pub data Looked (books : Books) (extra : List String)
    : Result Json → Result (Option OrderStatusReport) → Type 0 where
  says_absent :
      (f : Failure) → IsNoSuchOrder f → Looked books extra (err (dhan_api_error f)) (ok none)
  raises :
      (e : Exc)
      → ((f : Failure) → IsNoSuchOrder f → e ≢ dhan_api_error f)
      → Looked books extra (err e) (err e)
  unlisted :
      (body : Json)
      → Mapped books (builder_with books extra) (as_rows body) []
      → Looked books extra (ok body) (ok none)
  listed :
      (body : Json) (report : OrderStatusReport) (reports : List OrderStatusReport)
      → Mapped books (builder_with books extra) (as_rows body) (report ∷ reports)
      → Looked books extra (ok body) (ok (some report))
  unreadable :
      (body : Json) (e : Exc)
      → ((reports : List OrderStatusReport)
          → ¬ Mapped books (builder_with books extra) (as_rows body) reports)
      → Looked books extra (ok body) (err e)

rows-Looked :
    (books : Books) (extra : List String) (body : Json) (r : Result (List OrderStatusReport))
    → reports_in books (builder_with books extra) (as_rows body) ≡ r
    → Looked books extra (ok body) (r >>= λ reports. ok (first_of reports))
rows-Looked books extra body (err e) h = unreadable body e λ reports mapped.
    let given = (reports_in_iff books (builder_with books extra) (as_rows body) reports).1 mapped in
    absurd (cc)
rows-Looked books extra body (ok []) h =
    unlisted body ((reports_in_iff books (builder_with books extra) (as_rows body) []).0 h)
rows-Looked books extra body (ok (report ∷ reports)) h =
    listed body report reports
      ((reports_in_iff books (builder_with books extra) (as_rows body) (report ∷ reports)).0 h)

abbrev failure_of : Failure → Exc → Failure
failure_of f (dhan_api_error g) = g
failure_of f e = f

single_report-Looked :
    (books : Books) (extra : List String) (read : Result Json)
    → Looked books extra read (single_report books extra read)
unfolding single_report is_no_such_order
single_report-Looked books extra (ok body) = rows-Looked books extra body _ refl
single_report-Looked books extra (err (dhan_api_error f)) =
    elim (Bool-cases (is_infix (codes "incorrect request for order") (lower (codes f.reason)))) [
      | inl said ↦ rw said (says_absent f said)
      | inr other ↦ rw other (
          raises (dhan_api_error f) λ g said e.
            let same : f ≡ g = ap (failure_of f) e in
            absurd (false≢true (sym other ∙ subst IsNoSuchOrder (sym same) said)))
    ]
single_report-Looked books extra (err e) = raises e (λ f said same. cc)

-- Where an id is given, the client answers that there is no such order exactly where the venue
-- refused the request in those words, or answered with rows that give no report. Every other
-- failure of the read is raised as it is, so a session that is not valid is not read as an absent
-- order; and rows are answered with the first of their reports, or raise where there are none to be
-- had.
pub generate_order_status_report-IsAbsent_iff :
    (books : Books) (venue_order_id client_order_id : Option String) (path : String)
    → lookup_path venue_order_id client_order_id ≡ some path
    → let out = generate_order_status_report books venue_order_id client_order_id in
      ((out ≡ ok none) ↔ IsAbsent books (extra_ids client_order_id) (asked books path))
      × Looked books (extra_ids client_order_id) (asked books path) out
unfolding generate_order_status_report
generate_order_status_report-IsAbsent_iff books venue_order_id client_order_id path at =
    let extra = extra_ids client_order_id in
    let read = asked books path in
    rw (at, generate_order_status_report)
      (
        (single_report-IsAbsent books extra read, single_report-of_IsAbsent books extra read),
        single_report-Looked books extra read,
      )
