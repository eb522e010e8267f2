-- ===== src/Core/Tests.antt =====
-- The theorems at concrete inputs: two lot sizes of one underlying, and symbols of Nifty.
use nautilus_trader_india.Prelude.{
  none, false, ◌/◌, ◌≤◌, ◌+◌, String, refl, ◌≡◌, ◌≢◌, ◌*◌, ◌^◌, ℕ, pos, Option, some, [], ◌∷◌, Text,
  codes, text_eq, arith,
}
use nautilus_trader_india.Nautilus.{Decimal, buy, Instrument}
use nautilus_trader_india.Core.Date.{Date, is_date, days_in_month, is_leap}
use nautilus_trader_india.Core.Lots.{Spec}
use nautilus_trader_india.Core.Fees.{
  Rates, Fill, Money, rates_on, int_of_quantity, get_commission, trade_date,
}
use nautilus_trader_india.Core.Fees.Slices.{
  lots, unit_of, gst_on_brokerage, IsNearest, get_commission-slices,
}
use nautilus_trader_india.Core.Symbology.{
  call, upper, to_symbol, parse_symbol, strike_to_paise, paise_of, is_right, symbol_for, with_right,
  with_paise, option_symbol,
}
use nautilus_trader_india.Core.Symbology.Shapes.{IsListed}
use nautilus_trader_india.Core.Symbology.RoundTrip.{
  option_of, in_paise, parse_symbol-to_symbol, to_symbol-injective,
}

abbrev june : Date
june = record { year = 2026; month = 6; day = 25 }

abbrev nifty : Spec
nifty = record {
  observed = record { expiry = june; lot = 25 } ∷ [];
  regimes =
      record {
        first = record { year = 2025; month = 12; day = 24 };
        last = record { year = 2027; month = 12; day = 31 };
        lot = 65;
      }
      ∷ [];
}

abbrev table : String → Option Spec
table _ = some nifty

abbrev underlying : Text
underlying = codes "NIFTY"

abbrev lower : Text
lower = codes "nifty"

-- 24500.50 and the same strike with one more place.
abbrev strike : Decimal
strike = record { coefficient = pos 2_450_050; places = 2 }

abbrev finer : Decimal
finer = record { coefficient = pos 24_500_500; places = 3 }

named : underlying ≢ []
named h = cc

named_lower : lower ≢ []
named_lower h = cc

june-IsListed : IsListed june
unfolding is_date days_in_month is_leap
june-IsListed = record { is_real = refl; from_1969 = omega arith; to_2068 = omega arith }

parse_symbol-to_symbol_example :
    (symbol : Text) × (to_symbol (option_of underlying june strike call) ≡ some symbol)
    × (parse_symbol symbol ≡ some (option_of (upper underlying) june (in_paise 2_450_050) call))
unfolding strike_to_paise paise_of is_right text_eq
parse_symbol-to_symbol_example =
    parse_symbol-to_symbol underlying june strike 2_450_050 call named june-IsListed refl refl

to_symbol-injective_example :
    (upper lower ≡ upper underlying)
    × (june ≡ june)
    × (call ≡ call)
    × ((m : ℕ) × (n : ℕ) × (strike.coefficient ≡ pos m)
        × (finer.coefficient ≡ pos n)
        × (m * 10 ^ finer.places ≡ n * 10 ^ strike.places))
unfolding strike_to_paise paise_of is_right text_eq to_symbol symbol_for with_right with_paise
    option_symbol upper
to_symbol-injective_example =
    to_symbol-injective lower underlying june june strike finer 2_450_050 2_450_050 call call
      named_lower named june-IsListed june-IsListed refl refl refl refl refl

-- Rates in hundredths: a flat 20 rupees and 18 per cent of GST.
abbrev flat_rates : Rates
flat_rates = record {
  first = june;
  last = june;
  scale = 100;
  stt_sell = 1;
  stamp_buy = 1;
  brokerage_flat = 2_000;
  exchange = 1;
  sebi = 1;
  gst = 18;
  stt_exercise = 1;
  verified = false;
  reconciled_against = none;
}

abbrev opening_fill : Fill
opening_fill = record { side = buy; filled_qty = lots 0; ts_last = 1; ts_init = 1 }

abbrev second_fill : Fill
second_fill = record opening_fill { filled_qty = lots 1 }

abbrev contract : Instrument
contract = record { id = "NIFTY"; multiplier = lots 65; segment_code = none }

abbrev on_june : ℕ → Date
on_june _ = june

-- Half up.
abbrev to_paise : Money
to_paise n d = (200 * n + d) / (2 * d)

to_paise-IsNearest : IsNearest to_paise
to_paise-IsNearest = record {
  below = λ n d some_unit. omega (arith, some_unit);
  above = λ n d some_unit. omega (arith, some_unit);
}

get_commission-slices_example :
    (a : ℕ) × (b : ℕ) × (c : ℕ) × (get_commission to_paise on_june
        (flat_rates ∷ [])
        opening_fill
        (lots 1)
        (lots 100)
        contract
      ≡ some a)
    × (get_commission to_paise on_june (flat_rates ∷ []) second_fill (lots 2) (lots 100) contract
        ≡ some b)
    × (get_commission to_paise on_june (flat_rates ∷ []) opening_fill (lots 3) (lots 100) contract
        ≡ some c)
    × (2 * ((a + b) * unit_of flat_rates (lots 100))
        ≤ 2 * (c * unit_of flat_rates (lots 100) + 100 * gst_on_brokerage flat_rates (lots 100))
          + 3 * unit_of flat_rates (lots 100))
    × (2 * (c * unit_of flat_rates (lots 100) + 100 * gst_on_brokerage flat_rates (lots 100))
        ≤ 2 * ((a + b) * unit_of flat_rates (lots 100)) + 3 * unit_of flat_rates (lots 100))
unfolding rates_on int_of_quantity trade_date
get_commission-slices_example =
    get_commission-slices to_paise on_june (flat_rates ∷ []) opening_fill second_fill 1 2 (lots 100)
      contract flat_rates to_paise-IsNearest (omega arith) refl refl (omega arith) refl refl
