-- ===== src/Dhan/Providers/Loaded.antt =====
-- What a loaded provider offers.
use mathlib.Core.Option.{some-injective, map as map_option}
use nautilus_trader_india.Prelude.{
  ◌≡◌, refl, sym, ◌∙◌, ap, ℤ, Bool, true, false, not, ◌||◌, Option, none, some, List, [], ◌∷◌, Text,
  text_eq, arith, if◌then◌else◌, Bool-cases, inl, inr, All, subst, is_some,
}
use nautilus_trader_india.Core.Date.{Date}
use nautilus_trader_india.Core.Symbology.{nse, bse, mcx}
use nautilus_trader_india.Core.Instruments.{InstrumentId}
use nautilus_trader_india.Dhan.Parsing.{Row, ScripRow, parse_row}
use nautilus_trader_india.Dhan.Providers.{
  Loading, Provider, Listed, is_expired, matches, same_id, same_security, find_in, security_id_for,
  instrument_id_for, code_of, added, build, with_master_values, load_parsed, load_row, load_all,
  Answer, download, load_all_async,
}

-- What holds of the maps of a provider: an instrument that a packet is routed to has an id to order
-- it by, so has every instrument that is offered, and none of these has expired.
pub record IsConsistent (today : Date) (p : Provider) : Type 0 where
  pub routed :
      (security_id : Text) (segment : ℤ) (id : InstrumentId)
      → instrument_id_for p security_id segment ≡ some id
      → is_some (security_id_for p id) ≡ true
  pub named : All (λ entry. is_some (security_id_for p entry.0) ≡ true) p.instruments
  pub fresh : All (λ entry. is_expired today entry.1.expiry ≡ false) p.instruments

text_eq_refl : (t : Text) → text_eq t t ≡ true
unfolding text_eq
text_eq_refl [] = refl
text_eq_refl (c ∷ t) = ground (arith, text_eq_refl t)

same_id_refl : (id : InstrumentId) → same_id id id ≡ true
unfolding same_id
same_id_refl (s, nse) = rw (text_eq_refl s)
same_id_refl (s, bse) = rw (text_eq_refl s)
same_id_refl (s, mcx) = rw (text_eq_refl s)

All-imp : {A : Type 0} {P Q : A → Type 0} (l : List A) → ((a : A) → P a → Q a) → All P l → All Q l
All-imp [] f h = tt
All-imp (a ∷ l) f h = (f a h.0, All-imp l f h.1)

module _ (p : Provider) (parsed : ScripRow) (listed : Listed) where
  -- An id stays known when a row is added.
  kept :
      (id : InstrumentId)
      → is_some (security_id_for p id) ≡ true
      → is_some (security_id_for (added p parsed listed) id) ≡ true
  unfolding security_id_for added find_in
  kept id h = ground arith

  now_known : is_some (security_id_for (added p parsed listed) listed.minted.id) ≡ true
  unfolding security_id_for added find_in
  now_known = rw (same_id_refl listed.minted.id)

  unrouted :
      (security_id : Text) (segment : ℤ)
      → code_of parsed ≡ none
      → instrument_id_for (added p parsed listed) security_id segment
        ≡ instrument_id_for p security_id segment
  unfolding added instrument_id_for
  unrouted security_id segment e = rw (e, added)

  routed_by :
      (code : ℤ) (security_id : Text) (segment : ℤ)
      → code_of parsed ≡ some code
      → instrument_id_for (added p parsed listed) security_id segment ≡ (
          if same_security (parsed.security_id, code) (security_id, segment)
          then some listed.minted.id
          else instrument_id_for p security_id segment)
  unfolding added instrument_id_for find_in
  routed_by code security_id segment e = rw (e, added)

  routed_after :
      (today : Date) (security_id : Text) (segment : ℤ) (id : InstrumentId)
      → IsConsistent today p
      → instrument_id_for (added p parsed listed) security_id segment ≡ some id
      → is_some (security_id_for (added p parsed listed) id) ≡ true
  routed_after today security_id segment id before h = go (code_of parsed) refl
    where
      go :
          (code : Option ℤ)
          → code_of parsed ≡ code
          → is_some (security_id_for (added p parsed listed) id) ≡ true
      go none e =
          kept id (before.routed security_id segment id (sym (unrouted security_id segment e) ∙ h))
      go (some code) e =
          elim (Bool-cases (same_security (parsed.security_id, code) (security_id, segment))) [
            | inl same ↦
                let found : some listed.minted.id ≡ some id =
                  sym (routed_by code security_id segment e ∙ rw same) ∙ h in
                subst (λ i. is_some (security_id_for (added p parsed listed) i) ≡ true)
                  (some-injective _ _ found) now_known
            | inr other ↦
                let found : instrument_id_for p security_id segment ≡ some id =
                  sym (routed_by code security_id segment e ∙ rw other) ∙ h in
                kept id (before.routed security_id segment id found)
          ]

  added-IsConsistent :
      (today : Date)
      → IsConsistent today p
      → is_expired today listed.expiry ≡ false
      → IsConsistent today (added p parsed listed)
  unfolding added
  added-IsConsistent today before live = record {
    routed = λ security_id segment id h. routed_after today security_id segment id before h;
    named = (now_known, All-imp p.instruments (λ entry h. kept entry.0 h) before.named);
    fresh = (live, before.fresh);
  }

build-expiry :
    (l : Loading) (parsed : ScripRow) (listed : Listed)
    → build l parsed ≡ some listed
    → listed.expiry ≡ parsed.expiry
unfolding build with_master_values
build-expiry l parsed listed h = ground arith

load_parsed-IsConsistent :
    (l : Loading) (p q : Provider) (parsed : ScripRow)
    → IsConsistent l.today p
    → load_parsed l p parsed ≡ some q
    → IsConsistent l.today q
unfolding load_parsed
load_parsed-IsConsistent l p q parsed before h =
    elim (Bool-cases (is_expired l.today parsed.expiry || not (matches l.filters parsed))) [
      | inl skip ↦ subst (IsConsistent l.today) (some-injective p q (ground arith)) before
      | inr take ↦ go (build l parsed) refl (ground arith) (ground arith)
    ]
  where
    go :
        (built : Option Listed)
        → build l parsed ≡ built
        → map_option (added p parsed) built ≡ some q
        → is_expired l.today parsed.expiry ≡ false
        → IsConsistent l.today q
    go none e h live = absurd (cc)
    go (some listed) e h live = subst (IsConsistent l.today) (some-injective _ q h) (
        added-IsConsistent p parsed listed l.today before
          (ap (is_expired l.today) (build-expiry l parsed listed e) ∙ live))

load_row-IsConsistent :
    (l : Loading) (p q : Provider) (row : Row)
    → IsConsistent l.today p
    → load_row l p row ≡ some q
    → IsConsistent l.today q
unfolding load_row
load_row-IsConsistent l p q row before h = go (parse_row l.readers row) h
  where
    go :
        (parsed : Option ScripRow)
        → (elim parsed [ none ↦ some p | some parsed ↦ load_parsed l p parsed ]) ≡ some q
        → IsConsistent l.today q
    go none h = subst (IsConsistent l.today) (some-injective p q h) before
    go (some parsed) h = load_parsed-IsConsistent l p q parsed before h

load_all-IsConsistent :
    (l : Loading) (p : Provider) (rows : List Row)
    → IsConsistent l.today p
    → IsConsistent l.today (load_all l p rows).0
unfolding load_all
load_all-IsConsistent l p [] before = before
load_all-IsConsistent l p (row ∷ rows) before =
    go (load_row l p row) refl (λ q after. load_all-IsConsistent l q rows after)
  where
    go :
        (next : Option Provider)
        → load_row l p row ≡ next
        → ((q : Provider) → IsConsistent l.today q → IsConsistent l.today (load_all l q rows).0)
        → IsConsistent l.today
            (elim next as (λ _. Provider × Bool) [
              | none ↦ (p, false)
              | some q ↦ load_all l q rows
            ]).0
    go none e rest = before
    go (some q) e rest = rest q (load_row-IsConsistent l p q row before e)

-- What a load leaves behind.
pub record Leaves (l : Loading) (p : Provider) (answer : Answer) (after : Provider × Bool)
    : Type 0 where
  pub consistent : IsConsistent l.today after.0
  pub untouched : download answer ≡ none → after ≡ (p, false)

-- A load, also one that raises at some row, keeps the maps of the provider consistent: each
-- instrument that a packet is routed to and each instrument that is offered has an id to order it
-- by, and no instrument that is offered had expired. Where the download fails or its status is not
-- 200, the load raises and leaves the maps as they were.
pub load_all_async-Leaves :
    (rows_in : Text → List Row) (l : Loading) (p : Provider) (answer : Answer)
    → IsConsistent l.today p
    → Leaves l p answer (load_all_async rows_in l p answer)
unfolding load_all_async
load_all_async-Leaves rows_in l p answer before = go (download answer) refl
  where
    go :
        (text : Option Text)
        → download answer ≡ text
        → Leaves l p answer
            (elim text [ none ↦ (p, false) | some words ↦ load_all l p (rows_in words) ])
    go none e = record { consistent = before; untouched = λ _. refl }
    go (some words) e = record {
      consistent = load_all-IsConsistent l p (rows_in words) before;
      untouched = λ none_read. absurd (ground (arith, e, none_read));
    }
