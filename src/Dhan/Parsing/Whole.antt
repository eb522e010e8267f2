-- ===== src/Dhan/Parsing/Whole.antt =====
-- A row that is parsed is a whole contract.
use mathlib.Core.Option.{some-injective}
use nautilus_trader_india.Prelude.{
  ◌≡◌, ◌≢◌, refl, ap, ◌+◌, ℕ, zero, suc, ℤ, pos, negsuc, true, Option, none, some, [], ◌∷◌, Text,
  arith, Bool-cases, inl, inr, subst,
}
use nautilus_trader_india.Nautilus.{Decimal}
use nautilus_trader_india.Core.Date.{Date}
use nautilus_trader_india.Core.Symbology.{
  InstrumentClass, equity, index, future, option, is_right, upper,
}
use nautilus_trader_india.Dhan.Parsing.{
  Readers, Row, ScripRow, Terms, class_named, exchange_named, cell, text_or, strip, parse_expiry,
  parse_strike, is_positive, if_positive, terms_of, lot_in, tick_in, lot_for, tick_for, ◌>>=◌,
  unless_empty, if_tradeable, parse_row,
}

abbrev pub IsPositive : ℤ → Type 0
IsPositive c = (n : ℕ) × (c ≡ pos (n + 1))

-- The terms that a contract of each class has, and no others.
pub data HasTerms : InstrumentClass → Option Date → Option Decimal → Option Text → Type 0 where
  cash : HasTerms equity none none none
  reference : HasTerms index none none none
  dated : (t : Date) → HasTerms future (some t) none none
  struck :
      (t : Date) (strike : Decimal) (right : Text)
      → IsPositive strike.coefficient
      → is_right right ≡ true
      → HasTerms option (some t) (some strike) (some right)

pub record IsWhole (row : ScripRow) : Type 0 where
  pub named : row.key.underlying ≢ []
  pub has_id : row.security_id ≢ []
  pub lot : IsPositive row.lot_size
  pub tick : IsPositive row.tick_size.coefficient
  pub terms : HasTerms row.key.instrument_class row.key.expiry row.key.strike row.key.right
  pub same_expiry : row.expiry ≡ row.key.expiry

-- A chain that gives a value went through its first step.
>>=-then :
    {A B P : Type 0} (m : Option A) (f : A → Option B) (b : B)
    → m >>= f ≡ some b
    → ((a : A) → m ≡ some a → f a ≡ some b → P)
    → P
>>=-then none f b h rest = absurd (cc)
>>=-then (some a) f b h rest = rest a refl h

is_positive-IsPositive : (c : ℤ) → is_positive c ≡ true → IsPositive c
unfolding is_positive
is_positive-IsPositive (pos zero) h = absurd (cc)
is_positive-IsPositive (pos (suc n)) h = (n, ap pos (omega arith))
is_positive-IsPositive (negsuc n) h = absurd (cc)

unless_empty-ne-nil : (t u : Text) → unless_empty t ≡ some u → u ≢ []
unfolding unless_empty
unless_empty-ne-nil [] u h e = absurd (cc)
unless_empty-ne-nil (c ∷ t) u h e = absurd (cc)

if_positive-IsPositive :
    (d : Option Decimal) (s : Decimal) → if_positive d ≡ some s → IsPositive s.coefficient
unfolding if_positive
if_positive-IsPositive none s h = absurd (cc)
if_positive-IsPositive (some d) s h = elim (Bool-cases (is_positive d.coefficient)) [
  | inl p ↦
      let e : d ≡ s = ground arith in
      subst (λ (x : Decimal). IsPositive x.coefficient) e (is_positive-IsPositive d.coefficient p)
  | inr n ↦ absurd (ground arith)
]

parse_strike-IsPositive :
    (readers : Readers) (raw : Text) (strike : Decimal)
    → parse_strike readers raw ≡ some strike
    → IsPositive strike.coefficient
unfolding parse_strike
parse_strike-IsPositive readers raw strike h =
    if_positive-IsPositive (readers.decimal (strip raw)) strike (ground arith)

terms_of-HasTerms :
    (c : InstrumentClass) (expiry : Option Date) (strike : Option Decimal) (right : Text)
    (terms : Terms)
    → ((s : Decimal) → strike ≡ some s → IsPositive s.coefficient)
    → terms_of c expiry strike right ≡ some terms
    → HasTerms c terms.expiry terms.strike terms.right
unfolding terms_of
terms_of-HasTerms option (some t) (some s) right terms positive h =
    elim (Bool-cases (is_right right)) [
      | inl is_r ↦
          let e : record { expiry = some t; strike = some s; right = some right } ≡ terms =
            ground arith in
          subst (λ (x : Terms). HasTerms option x.expiry x.strike x.right) e
            (struck t s right (positive s refl) is_r)
      | inr other ↦ absurd (ground arith)
    ]
terms_of-HasTerms option none strike right terms positive h = absurd (cc)
terms_of-HasTerms option (some t) none right terms positive h = absurd (cc)
terms_of-HasTerms future (some t) strike right terms positive h =
    let e : record { expiry = some t; strike = none; right = none } ≡ terms = cc in
    subst (λ (x : Terms). HasTerms future x.expiry x.strike x.right) e (dated t)
terms_of-HasTerms future none strike right terms positive h = absurd (cc)
terms_of-HasTerms equity expiry strike right terms positive h =
    let e : record { expiry = none; strike = none; right = none } ≡ terms = cc in
    subst (λ (x : Terms). HasTerms equity x.expiry x.strike x.right) e cash
terms_of-HasTerms index expiry strike right terms positive h =
    let e : record { expiry = none; strike = none; right = none } ≡ terms = cc in
    subst (λ (x : Terms). HasTerms index x.expiry x.strike x.right) e reference

if_tradeable-IsPositive :
    (lot : ℤ) (tick : Decimal) (done : Unit {0})
    → if_tradeable lot tick ≡ some done
    → IsPositive lot × IsPositive tick.coefficient
unfolding if_tradeable
if_tradeable-IsPositive lot tick done h = (
  is_positive-IsPositive lot (ground arith),
  is_positive-IsPositive tick.coefficient (ground arith),
)

-- A row that is parsed is a whole contract: it has an underlying and an id, a positive lot and a
-- positive tick, and exactly the terms of its class, an option's strike being positive and its
-- right one of the two.
pub parse_row-IsWhole :
    (readers : Readers) (row : Row) (parsed : ScripRow)
    → parse_row readers row ≡ some parsed
    → IsWhole parsed
unfolding parse_row
parse_row-IsWhole readers row parsed h =
    >>=-then (class_named (cell row "INSTRUMENT")) _ _ h λ c _ h.
      >>=-then (exchange_named (cell row "EXCH_ID")) _ _ h λ exchange _ h.
        >>=-then (unless_empty (strip (cell row "SECURITY_ID"))) _ _ h λ id id_is h.
          >>=-then
            (unless_empty
              (upper (strip (text_or (cell row "UNDERLYING_SYMBOL") (cell row "SYMBOL_NAME")))))
            _ _ h
            λ underlying underlying_is h.
              >>=-then
                (terms_of c (parse_expiry readers (cell row "SM_EXPIRY_DATE"))
                  (parse_strike readers (cell row "STRIKE_PRICE"))
                  (upper (strip (cell row "OPTION_TYPE"))))
                _ _ h
                λ terms terms_are h.
                  >>=-then (lot_in readers (cell row "LOT_SIZE")) _ _ h λ lot _ h.
                    >>=-then (tick_in readers (cell row "TICK_SIZE")) _ _ h λ tick _ h.
                      >>=-then (if_tradeable (lot_for c lot) (tick_for c tick)) _ _ h
                        λ done done_is h.
                          let (lot_pos, tick_pos) = if_tradeable-IsPositive _ _ done done_is in
                          let has =
                            terms_of-HasTerms c _ _ _ terms
                              (parse_strike-IsPositive readers (cell row "STRIKE_PRICE"))
                              terms_are in
                          let e = some-injective _ _ h in
                          subst IsWhole e (record {
                            named = unless_empty-ne-nil _ underlying underlying_is;
                            has_id = unless_empty-ne-nil _ id id_is;
                            lot = lot_pos;
                            tick = tick_pos;
                            terms = has;
                            same_expiry = refl;
                          })
