-- ===== src/Dhan/Execution/Books/Mapped.antt =====
-- Which reports the rows of an answer give, as a relation.
use nautilus_trader_india.Prelude.{◌≡◌, ◌↔◌, refl, Option, none, some, List, [], ◌∷◌, arith, subst}
use nautilus_trader_india.Nautilus.{Instrument}
use nautilus_trader_india.Dhan.Json.{Json, Items, Fields}
use nautilus_trader_india.Dhan.Exc.{Result, ok, >>=-then}
use nautilus_trader_india.Dhan.Execution.Books.{
  Books, instrument_for, row_report, found_then, reports_in,
}

-- The reports of some rows: each row that names a loaded instrument gives its own report, in the
-- order of the rows, and each other row gives none.
pub data Mapped {A : Type 0} (books : Books) (build : Fields → Instrument → Result A)
    : Items → List A → Type 0 where
  done : Mapped books build Items.nil []
  skipped :
      (row : Fields) (rows : Items) (reports : List A)
      → instrument_for books row ≡ none
      → Mapped books build rows reports
      → Mapped books build (Items.cons (Json.obj row) rows) reports
  reported :
      (row : Fields) (rows : Items) (instrument : Instrument) (report : A) (reports : List A)
      → instrument_for books row ≡ some instrument
      → build row instrument ≡ ok report
      → Mapped books build rows reports
      → Mapped books build (Items.cons (Json.obj row) rows) (report ∷ reports)

module _ {A : Type 0} (books : Books) (build : Fields → Instrument → Result A) where
  row_report-skipped :
      (row : Fields)
      → instrument_for books row ≡ none
      → row_report books build (Json.obj row) ≡ ok none
  unfolding row_report
  row_report-skipped row unnamed = ground arith

  row_report-reported :
      (row : Fields) (instrument : Instrument) (report : A)
      → instrument_for books row ≡ some instrument
      → build row instrument ≡ ok report
      → row_report books build (Json.obj row) ≡ ok (some report)
  unfolding row_report
  row_report-reported row instrument report named built = ground arith

  reports_in-cons :
      (v : Json) (rows : Items) (found : Option A) (reports : List A)
      → row_report books build v ≡ ok found
      → reports_in books build rows ≡ ok reports
      → reports_in books build (Items.cons v rows) ≡ ok (found_then found reports)
  unfolding reports_in
  reports_in-cons v rows found reports head rest = ground arith

  reports_in-of_Mapped :
      (rows : Items) (reports : List A)
      → Mapped books build rows reports
      → reports_in books build rows ≡ ok reports
  unfolding reports_in
  reports_in-of_Mapped _ _ done = refl
  reports_in-of_Mapped _ _ (skipped row rows reports unnamed rest) =
      reports_in-cons (Json.obj row) rows none reports (row_report-skipped row unnamed)
        (reports_in-of_Mapped rows reports rest)
  reports_in-of_Mapped _ _ (reported row rows instrument report reports named built rest) =
      reports_in-cons (Json.obj row) rows (some report) reports
        (row_report-reported row instrument report named built)
        (reports_in-of_Mapped rows reports rest)

  reported_Mapped :
      (row : Fields) (rows : Items) (instrument : Instrument) (found : Option A) (reports : List A)
      → instrument_for books row ≡ some instrument
      → row_report books build (Json.obj row) ≡ ok found
      → Mapped books build rows reports
      → Mapped books build (Items.cons (Json.obj row) rows) (found_then found reports)
  unfolding row_report
  reported_Mapped row rows instrument none reports named h rest = absurd (ground arith)
  reported_Mapped row rows instrument (some report) reports named h rest =
      reported row rows instrument report reports named (ground arith) rest

  skipped_Mapped :
      (row : Fields) (rows : Items) (found : Option A) (reports : List A)
      → instrument_for books row ≡ none
      → row_report books build (Json.obj row) ≡ ok found
      → Mapped books build rows reports
      → Mapped books build (Items.cons (Json.obj row) rows) (found_then found reports)
  unfolding row_report
  skipped_Mapped row rows none reports unnamed h rest = skipped row rows reports unnamed rest
  skipped_Mapped row rows (some report) reports unnamed h rest = absurd (ground arith)

  cons_Mapped :
      (v : Json) (rows : Items) (found : Option A) (reports : List A)
      → row_report books build v ≡ ok found
      → Mapped books build rows reports
      → Mapped books build (Items.cons v rows) (found_then found reports)
  unfolding row_report
  cons_Mapped (Json.obj row) rows found reports h rest = go (instrument_for books row) refl
    where
      go :
          (i : Option Instrument)
          → instrument_for books row ≡ i
          → Mapped books build (Items.cons (Json.obj row) rows) (found_then found reports)
      go none e = skipped_Mapped row rows found reports e h rest
      go (some instrument) e = reported_Mapped row rows instrument found reports e h rest
  cons_Mapped Json.null rows found reports h rest = absurd (cc)
  cons_Mapped (Json.bool b) rows found reports h rest = absurd (cc)
  cons_Mapped (Json.num n) rows found reports h rest = absurd (cc)
  cons_Mapped (Json.text t) rows found reports h rest = absurd (cc)
  cons_Mapped (Json.arr vs) rows found reports h rest = absurd (cc)

  reports_in-Mapped :
      (rows : Items) (reports : List A)
      → reports_in books build rows ≡ ok reports
      → Mapped books build rows reports
  unfolding reports_in
  reports_in-Mapped Items.nil reports h =
      let e : [] ≡ reports = cc in subst (λ rs. Mapped books build Items.nil rs) e done
  reports_in-Mapped (Items.cons v rows) reports h =
      >>=-then (row_report books build v) _ _ h λ found found_is h.
        >>=-then (reports_in books build rows) _ _ h λ rest rest_is h.
          let e : found_then found rest ≡ reports = cc in
          subst (λ rs. Mapped books build (Items.cons v rows) rs) e
            (cons_Mapped v rows found rest found_is (reports_in-Mapped rows rest rest_is))

  -- A list of reports is what the rows of an answer give exactly where each row that names a loaded
  -- instrument has its own report in it, in the order of the rows, and there is no other. So no
  -- report is given where one of these rows has none.
  pub reports_in_iff :
      (rows : Items) (reports : List A)
      → (reports_in books build rows ≡ ok reports) ↔ Mapped books build rows reports
  reports_in_iff rows reports = (reports_in-Mapped rows reports, reports_in-of_Mapped rows reports)
