-- ===== src/Core/Symbology/RoundTrip.antt =====
-- A symbol is read back as its contract, and no two contracts share one.
use native.Mathlib.Nat.{div-add-mod'}
use mathlib.Core.Option.{some-injective}
use nautilus_trader_india.Prelude.{
  ℕ, ◌*◌, ◌^◌, ◌<◌, ◌≡◌, ◌≢◌, refl, sym, ap, ◌∙◌, ℤ, pos, negsuc, true, none, some, [], ◌∷◌, ◌++◌,
  Text, digits, number-digits, init-append, length, arith, text_eq, text_eq_sound, Bool-cases, inl,
  inr,
}
use nautilus_trader_india.Nautilus.{Decimal}
use nautilus_trader_india.Core.Date.{Date}
use nautilus_trader_india.Core.Symbology.{
  ContractKey, option, future, to_symbol, symbol_for, with_right, with_paise, option_symbol,
  strike_to_paise, paise_of, stamp_of, upper, is_right, call, put, parse_symbol, option_key,
  future_suffix, as_option, as_future,
}
use nautilus_trader_india.Core.Symbology.Shapes.{
  IsListed, as_option-symbol, as_future-symbol, as_option-none, length-stamp_of,
}

abbrev pub option_of : Text → Date → Decimal → Text → ContractKey
option_of underlying expiry strike right = record {
  underlying = underlying;
  instrument_class = option;
  expiry = some expiry;
  strike = some strike;
  right = some right;
}

abbrev pub future_of : Text → Date → ContractKey
future_of underlying expiry = record {
  underlying = underlying;
  instrument_class = future;
  expiry = some expiry;
  strike = none;
  right = none;
}

abbrev pub in_paise : ℕ → Decimal
in_paise paise = record { coefficient = pos paise; places = 2 }

upper-ne-nil : (u : Text) → u ≢ [] → upper u ≢ []
unfolding upper
upper-ne-nil [] named = absurd (named refl)
upper-ne-nil (c ∷ u) named = cc

is_right-length : (r : Text) → is_right r ≡ true → length r ≡ 2
unfolding is_right
is_right-length r h = elim (Bool-cases (text_eq r call)) [
  | inl e ↦ ap length (text_eq_sound r call e)
  | inr n ↦ ap length (text_eq_sound r put (ground arith))
]

paise_of-exact :
    (c : ℤ) (places paise : ℕ)
    → paise_of c places ≡ some paise
    → (n : ℕ) × (c ≡ pos n) × (n * 100 ≡ paise * 10 ^ places) × (paise < 1_000_000_000)
unfolding paise_of
paise_of-exact (negsuc n) places paise h = absurd (cc)
paise_of-exact (pos n) places paise h =
    (n, refl, ground (arith, div-add-mod' (n * 100) (10 ^ places)), ground arith)

cross : (m n k a b : ℕ) → m * 100 ≡ k * a → n * 100 ≡ k * b → m * b ≡ n * a
cross m n k a b h g = omega (arith, ap (λ (x : ℕ). x * b) h, ap (λ (x : ℕ). x * a) g)

parse_symbol-option_in :
    (symbol : Text) (key : ContractKey)
    → as_option symbol ≡ some key
    → symbol ≢ []
    → parse_symbol symbol ≡ some key
unfolding parse_symbol
parse_symbol-option_in [] key h ne = absurd (ne refl)
parse_symbol-option_in (c ∷ t) key h ne = rw h

parse_symbol-future_in :
    (symbol : Text) (key : ContractKey)
    → as_option symbol ≡ none
    → as_future symbol ≡ some key
    → symbol ≢ []
    → parse_symbol symbol ≡ some key
unfolding parse_symbol
parse_symbol-future_in [] key o h ne = absurd (ne refl)
parse_symbol-future_in (c ∷ t) key o h ne = rw o (rw h)

append-ne-nil : (s t : Text) → s ≢ [] → s ++ t ≢ []
append-ne-nil [] t ne = absurd (ne refl)
append-ne-nil (c ∷ s) t ne = cc

option_key-eq :
    (u : Text) (t : Date) (paise : ℕ) (r : Text)
    → paise < 1_000_000_000
    → option_key (u ++ stamp_of t) (digits 9 paise) r (some t)
      ≡ some (option_of u t (in_paise paise) r)
unfolding option_key
option_key-eq u t paise r fits =
    rw (init-append 6 u (stamp_of t) (length-stamp_of t)) (rw (number-digits 9 paise fits))

parse_symbol-option_symbol :
    (u : Text) (t : Date) (paise : ℕ) (r : Text)
    → u ≢ []
    → IsListed t
    → paise < 1_000_000_000
    → is_right r ≡ true
    → parse_symbol (option_symbol u t paise r) ≡ some (option_of (upper u) t (in_paise paise) r)
unfolding option_symbol
parse_symbol-option_symbol u t paise r named listed fits is_r =
    let ne = upper-ne-nil u named in
    parse_symbol-option_in _ _
      (as_option-symbol (upper u) t paise r ne listed (is_right-length r is_r) is_r
        ∙ option_key-eq (upper u) t paise r fits)
      (append-ne-nil _ r (append-ne-nil _ (digits 9 paise) (append-ne-nil _ (stamp_of t) ne)))

-- Every option whose strike is a number of paise that nine digits can hold, and whose expiry two
-- digits of a year can name, has a symbol, and that symbol is read back as the same contract: its
-- underlying in capitals, its expiry, its strike in paise and its right.
pub parse_symbol-to_symbol :
    (u : Text) (t : Date) (strike : Decimal) (paise : ℕ) (r : Text)
    → u ≢ []
    → IsListed t
    → strike_to_paise strike ≡ some paise
    → is_right r ≡ true
    → (symbol : Text) × (to_symbol (option_of u t strike r) ≡ some symbol)
      × (parse_symbol symbol ≡ some (option_of (upper u) t (in_paise paise) r))
unfolding to_symbol symbol_for with_right with_paise strike_to_paise
parse_symbol-to_symbol u t strike paise r named listed h is_r =
    let (n, _, _, fits) = paise_of-exact strike.coefficient strike.places paise h in
    (
      option_symbol u t paise r,
      rw is_r (rw h),
      parse_symbol-option_symbol u t paise r named listed fits is_r,
    )

-- Every future whose expiry two digits of a year can name has a symbol, and that symbol is read
-- back as the same contract, its underlying in capitals.
pub parse_symbol-future :
    (u : Text) (t : Date)
    → u ≢ []
    → IsListed t
    → (symbol : Text) × (to_symbol (future_of u t) ≡ some symbol)
      × (parse_symbol symbol ≡ some (future_of (upper u) t))
unfolding to_symbol symbol_for
parse_symbol-future u t named listed =
    let ne = upper-ne-nil u named in
    (
      upper u ++ stamp_of t ++ future_suffix,
      refl,
      parse_symbol-future_in _ _ (as_option-none (upper u ++ stamp_of t))
          (as_future-symbol (upper u) t ne listed)
          (append-ne-nil _ future_suffix (append-ne-nil _ (stamp_of t) ne)),
    )

-- Two options that share a symbol agree on the underlying in capitals, the expiry and the right, and
-- their strikes are equal as numbers: no two contracts collide on one symbol.
pub to_symbol-injective :
    (u v : Text) (t w : Date) (strike other : Decimal) (paise p : ℕ) (r q : Text)
    → u ≢ []
    → v ≢ []
    → IsListed t
    → IsListed w
    → strike_to_paise strike ≡ some paise
    → strike_to_paise other ≡ some p
    → is_right r ≡ true
    → is_right q ≡ true
    → to_symbol (option_of u t strike r) ≡ to_symbol (option_of v w other q)
    → (upper u ≡ upper v)
      × (t ≡ w)
      × (r ≡ q)
      × ((m : ℕ) × (n : ℕ) × (strike.coefficient ≡ pos m)
          × (other.coefficient ≡ pos n)
          × (m * 10 ^ other.places ≡ n * 10 ^ strike.places))
unfolding strike_to_paise
to_symbol-injective u v t w strike other paise p r q named named' listed listed' h h' is_r is_q
      same =
    let (s, e, read) = parse_symbol-to_symbol u t strike paise r named listed h is_r in
    let (s', e', read') = parse_symbol-to_symbol v w other p q named' listed' h' is_q in
    let one : s ≡ s' = some-injective _ _ (sym e ∙ same ∙ e') in
    let keys = some-injective _ _ (sym read ∙ ap parse_symbol one ∙ read') in
    let (m, m_is, m_exact, _) = paise_of-exact strike.coefficient strike.places paise h in
    let (n, n_is, n_exact, _) = paise_of-exact other.coefficient other.places p h' in
    let equal : paise ≡ p = cc in
    (cc, cc, cc, (m, n, m_is, n_is, cross m n paise _ _ m_exact (rw equal n_exact)))
